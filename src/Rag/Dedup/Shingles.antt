-- ===== src/Rag/Dedup/Shingles.antt =====
-- `_shingles` and `_shingle_similarity` of backend/app/rag/dedup.py.
use etoeragcb.Base.{
  ℕ, Bool, true, false, ◌&&◌, ◌≡◌, ◌↔◌, refl, List, [], ◌∷◌, ltb, if◌then◌else◌, length, arith,
  Keys, text_keys,
}
use etoeragcb.Base.Text.{Text, text_eq, text_eq_iff, split}
use etoeragcb.Base.Float.{FloatOps}
use etoeragcb.Base.Counter.{add_all, intersection}

shingle_eq : List Text → List Text → Bool
shingle_eq [] [] = true
shingle_eq [] (y ∷ ys) = false
shingle_eq (x ∷ xs) [] = false
shingle_eq (x ∷ xs) (y ∷ ys) = text_eq x y && shingle_eq xs ys

shingle_eq_sound : (s t : List Text) → shingle_eq s t ≡ true → s ≡ t
unfolding shingle_eq
shingle_eq_sound [] [] h = refl
shingle_eq_sound [] (y ∷ ys) h = cc
shingle_eq_sound (x ∷ xs) [] h = cc
shingle_eq_sound (x ∷ xs) (y ∷ ys) h = ground (arith, text_eq_iff x y, shingle_eq_sound xs ys)

shingle_eq_self : (s : List Text) → shingle_eq s s ≡ true
unfolding shingle_eq
shingle_eq_self [] = refl
shingle_eq_self (x ∷ xs) = ground (arith, text_eq_iff x x, shingle_eq_self xs)

shingle_eq_iff : (s t : List Text) → (shingle_eq s t ≡ true) ↔ (s ≡ t)
shingle_eq_iff s t = (shingle_eq_sound s t, λ e. rw e (shingle_eq_self t))

instance abbrev shingle_keys : Keys (List Text)
shingle_keys = record { same = shingle_eq; same_iff = shingle_eq_iff }

-- The windows of three tokens.
windows : List Text → List (List Text)
windows [] = []
windows (a ∷ []) = []
windows (a ∷ b ∷ []) = []
windows (a ∷ b ∷ c ∷ rest) = (a ∷ b ∷ c ∷ []) ∷ windows (b ∷ c ∷ rest)

shingles_of : List Text → List (List Text)
unfolding windows
shingles_of [] = []
shingles_of (t ∷ ts) =
    let tokens = t ∷ ts in if ltb (length tokens) 3 then tokens ∷ [] else windows tokens

-- The set of shingles, as the list of its members.
shingles : Text → List (List Text)
unfolding shingles_of shingle_eq
shingles text = add_all [] (shingles_of (split text))

ratio : FloatOps → List (List Text) → List (List Text) → ℕ
ratio ops [] right = 0
ratio ops (l ∷ ls) [] = 0
ratio ops (l ∷ ls) (r ∷ rs) =
    let left = l ∷ ls in
    let right = r ∷ rs in ops.div (length (intersection left right)) (length (add_all left right))

unfoldable pub shingle_similarity : FloatOps → Text → Text → ℕ
unfolding ratio shingles
shingle_similarity ops left right = ratio ops (shingles left) (shingles right)
