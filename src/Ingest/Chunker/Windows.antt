-- ===== src/Ingest/Chunker/Windows.antt =====
-- The windows of a block hold all of its tokens.
use etoeragcb.Base.{
  ℕ, zero, suc, ◌≤◌, ◌<◌, true, ◌≡◌, refl, ap, ◌∙◌, List, [], ◌∷◌, ◌++◌, arith, All, length, take,
  drop, length-take, leb, Bool-cases, inl, inr, take_all, length-drop,
}
use etoeragcb.Ingest.Chunker.{token_windows}

-- The windows put together: of each but the last, the part that no later window holds.
unfoldable pub rejoin {ℓ} : {A : Type ℓ} → ℕ → List (List A) → List A
rejoin step [] = []
rejoin step (w ∷ []) = w
rejoin step (w ∷ v ∷ ws) = take step w ++ rejoin step (v ∷ ws)

module _ {A : Type 0} where
  take-take : (m n : ℕ) (xs : List A) → m ≤ n → take m (take n xs) ≡ take m xs
  take-take zero n xs h = refl
  take-take (suc m) zero xs h = absurd (omega arith)
  take-take (suc m) (suc n) [] h = refl
  take-take (suc m) (suc n) (x ∷ xs) h = ap (λ ys. x ∷ ys) (take-take m n xs (omega arith))

  take-drop : (n : ℕ) (xs : List A) → take n xs ++ drop n xs ≡ xs
  take-drop zero xs = refl
  take-drop (suc n) [] = refl
  take-drop (suc n) (x ∷ xs) = ap (λ ys. x ∷ ys) (take-drop n xs)

  rejoin-cons :
      (step : ℕ) (w : List A) (fuel max_tokens : ℕ) (spans : List A)
      → rejoin step (w ∷ token_windows (suc fuel) max_tokens step spans)
        ≡ take step w ++ rejoin step (token_windows (suc fuel) max_tokens step spans)
  unfolding rejoin token_windows
  rejoin-cons step w fuel max_tokens spans = refl

  -- With windows of `max_tokens` tokens, a step of one at least and of `max_tokens` at most, and as
  -- much fuel as there are tokens, the windows of a text with a token hold all of its tokens in
  -- order: with the first `step` tokens of each but the last window, and all of the last, put
  -- together, the tokens come back. No window holds more than `max_tokens`.
  pub windows_cover :
      (fuel max_tokens step : ℕ) (spans : List A)
      → 1 ≤ step
      → step ≤ max_tokens
      → 1 ≤ length spans
      → length spans ≤ fuel
      → (rejoin step (token_windows fuel max_tokens step spans) ≡ spans)
        × All (λ w. length w ≤ max_tokens) (token_windows fuel max_tokens step spans)
  unfolding token_windows rejoin
  windows_cover zero max_tokens step spans k l n h = absurd (omega arith)
  windows_cover (suc zero) max_tokens step spans k l n h =
      let last : leb (length spans) max_tokens ≡ true = ground arith in
      rw last
        (take_all max_tokens spans (omega arith), (omega (arith, length-take max_tokens spans), tt))
  windows_cover (suc (suc fuel)) max_tokens step spans k l n h =
      let rest = drop step spans in
      elim (Bool-cases (leb (length spans) max_tokens)) [
        | inl last ↦ rw last (
          take_all max_tokens spans (ground arith),
          (omega (arith, length-take max_tokens spans), tt),
        )
        | inr longer ↦
            let more : max_tokens < length spans = ground arith in
            let ih =
              windows_cover (suc fuel) max_tokens step rest k l
                (omega (arith, length-drop step spans)) (omega (arith, length-drop step spans)) in
            rw longer (
              rejoin-cons step (take max_tokens spans) fuel max_tokens rest
                  ∙ ap (λ xs. take step (take max_tokens spans) ++ xs) ih.0
                  ∙ ap (λ xs. xs ++ rest) (take-take step max_tokens spans l)
                  ∙ take-drop step spans,
              (omega (arith, length-take max_tokens spans), ih.1),
            )
      ]
