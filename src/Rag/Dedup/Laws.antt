-- ===== src/Rag/Dedup/Laws.antt =====
-- `deduplicate` as a whole: what is kept, what is dropped, and what is never lost.
use etoeragcb.Base.{
  ℕ, ◌+◌, Bool, true, ◌≡◌, ◌⊎◌, inl, inr, refl, Option, none, some, List, [], ◌∷◌, ◌++◌, map, arith,
  All, All-append, All-map, Any, Any-append_left, Any-append_right, occurrences, occurrences-append,
  map-append_one,
}
use etoeragcb.Base.Text.{Text, text_keys}
use etoeragcb.Base.Float.{FloatOps}
use etoeragcb.Base.Counter.{contains, contains-append}
use etoeragcb.Base.Sort.{IsSorted, IsSorted-append_one, by_key}
use etoeragcb.Rag.Records.{RerankedEvidence, id_of}
use etoeragcb.Rag.Candidates.Order.{stable_reranked_key, key_leb}
use etoeragcb.Rag.Dedup.{DuplicateDecision, DeduplicationResult, absorb, settle, collapse}
use etoeragcb.Rag.Dedup.Absorb.{fingerprint, HasTerm, AreApart, Absorbed, absorb_lem}

abbrev pub AllApart : List (Text × Text) → Type 0
AllApart [] = Unit
AllApart (x ∷ xs) = All (AreApart x) xs × AllApart xs

abbrev pub digests : List RerankedEvidence → List (Text × Text)
digests = map (λ e. (fingerprint e).1)

abbrev pub keys : List RerankedEvidence → List (ℕ × Text)
keys = map stable_reranked_key

abbrev pub dropped_ids : List DuplicateDecision → List Text
dropped_ids = map (λ d. d.dropped_candidate_id)

AllApart-append_one :
    (xs : List (Text × Text)) (y : Text × Text)
    → AllApart xs
    → All (λ x. AreApart x y) xs
    → AllApart (xs ++ y ∷ [])
AllApart-append_one [] y a h = (tt, tt)
AllApart-append_one (x ∷ xs) y a h =
    (All-append (AreApart x) xs (y ∷ []) a.0 (h.0, tt), AllApart-append_one xs y a.1 h.1)

All-of_map {ℓ κ υ} :
    {A : Type ℓ} {B : Type κ} (f : A → B) (P : B → Type υ) (xs : List A)
    → All (λ x. P (f x)) xs
    → All P (map f xs)
All-of_map f P [] h = tt
All-of_map f P (x ∷ xs) h = (h.0, All-of_map f P xs h.1)

map-snd :
    (f : RerankedEvidence → (ℕ × Text) × (Text × Text)) (xs : List RerankedEvidence)
    → map (λ e. (f e).1) xs ≡ map (λ p. p.1) (map f xs)
map-snd f [] = refl
map-snd f (x ∷ xs) = rw (map-snd f xs)

map-fst :
    (f : RerankedEvidence → (ℕ × Text) × (Text × Text)) (xs : List RerankedEvidence)
    → map (λ e. (f e).0) xs ≡ map (λ p. p.0) (map f xs)
map-fst f [] = refl
map-fst f (x ∷ xs) = rw (map-fst f xs)

digests-eq :
    (xs ys : List RerankedEvidence)
    → map fingerprint xs ≡ map fingerprint ys
    → digests xs ≡ digests ys
digests-eq xs ys h = rw (map-snd fingerprint xs, h, ← map-snd fingerprint ys) refl

keys-eq :
    (xs ys : List RerankedEvidence) → map fingerprint xs ≡ map fingerprint ys → keys xs ≡ keys ys
keys-eq xs ys h = rw (map-fst fingerprint xs, h, ← map-fst fingerprint ys) refl

module _ (ops : FloatOps) (overlap near : ℕ) where
  -- The rule of the outer loop: what every round keeps holds at the end.
  pub collapse_inv :
      (P : DeduplicationResult → List RerankedEvidence → Type 0)
      → ((r : DeduplicationResult) (c : RerankedEvidence) (rest : List RerankedEvidence)
          → P r (c ∷ rest)
          → (o : Option (List RerankedEvidence × DuplicateDecision))
          → Absorbed ops overlap near r.candidates c o
          → P (settle r c o) rest)
      → (cs : List RerankedEvidence) (r : DeduplicationResult) → P r cs
      → P (collapse ops overlap near cs r) []
  unfolding collapse
  collapse_inv P step [] r h = h
  collapse_inv P step (c ∷ cs) r h =
      let o = absorb ops overlap near r.candidates c in
      collapse_inv P step cs (settle r c o)
        (step r c cs h o (absorb_lem ops overlap near c r.candidates))

  pub AllApart-settle :
      (r : DeduplicationResult) (c : RerankedEvidence)
      → AllApart (digests r.candidates)
      → (o : Option (List RerankedEvidence × DuplicateDecision))
      → Absorbed ops overlap near r.candidates c o
      → AllApart (digests (settle r c o).candidates)
  unfolding settle
  AllApart-settle r c h none a = rw (map-append_one (λ e. (fingerprint e).1) r.candidates c) (
      AllApart-append_one (digests r.candidates) (fingerprint c).1 h
        (All-of_map (λ e. (fingerprint e).1) (λ x. AreApart x (fingerprint c).1) r.candidates a))
  AllApart-settle r c h (some (kept, d)) a = rw (digests-eq kept r.candidates a.0) h

  -- The keys kept so far are sorted, and none is above a key that is still to come.
  abbrev pub InOrder : DeduplicationResult → List RerankedEvidence → Type 0
  InOrder r rest =
      IsSorted key_leb (keys r.candidates)
      × All (λ c. All (λ k. key_leb k (stable_reranked_key c) ≡ true) (keys r.candidates)) rest
      × IsSorted (by_key stable_reranked_key key_leb) rest

  below_next :
      (ks : List (ℕ × Text)) (c : RerankedEvidence) (rest : List RerankedEvidence)
      → All (λ x. All (λ k. key_leb k (stable_reranked_key x) ≡ true) ks) rest
      → All (λ x. by_key stable_reranked_key key_leb c x ≡ true) rest
      → All
          (λ x.
            All (λ k. key_leb k (stable_reranked_key x) ≡ true) (ks ++ stable_reranked_key c ∷ []))
          rest
  below_next ks c [] h k = tt
  below_next ks c (x ∷ rest) h k = (
    All-append (λ j. key_leb j (stable_reranked_key x) ≡ true) ks (stable_reranked_key c ∷ []) h.0
        (k.0, tt),
    below_next ks c rest h.1 k.1,
  )

  pub InOrder-settle :
      (r : DeduplicationResult) (c : RerankedEvidence) (rest : List RerankedEvidence)
      → InOrder r (c ∷ rest)
      → (o : Option (List RerankedEvidence × DuplicateDecision))
      → Absorbed ops overlap near r.candidates c o
      → InOrder (settle r c o) rest
  unfolding settle
  InOrder-settle r c rest (s, below, order) none a =
      rw (map-append_one stable_reranked_key r.candidates c) (
        IsSorted-append_one key_leb (keys r.candidates) (stable_reranked_key c) s below.0,
        below_next (keys r.candidates) c rest below.1 order.0,
        order.1,
      )
  InOrder-settle r c rest (s, below, order) (some (kept, d)) a =
      rw (keys-eq kept r.candidates a.0) (s, below.1, order.1)

  -- Nothing that carries a term is lost.
  abbrev pub Carries : Text → DeduplicationResult → List RerankedEvidence → Type 0
  Carries t r rest = Any (HasTerm t) r.candidates ⊎ Any (HasTerm t) rest

  pub Carries-settle :
      (t : Text) (r : DeduplicationResult) (c : RerankedEvidence) (rest : List RerankedEvidence)
      → Carries t r (c ∷ rest)
      → (o : Option (List RerankedEvidence × DuplicateDecision))
      → Absorbed ops overlap near r.candidates c o
      → Carries t (settle r c o) rest
  unfolding settle
  Carries-settle t r c rest (inl h) none a =
      inl (Any-append_left (HasTerm t) r.candidates (c ∷ []) h)
  Carries-settle t r c rest (inr (inl h)) none a =
      inl (Any-append_right (HasTerm t) r.candidates (c ∷ []) (inl h))
  Carries-settle t r c rest (inr (inr h)) o a = inr h
  Carries-settle t r c rest (inl h) (some (kept, d)) a = inl (a.4 t (inl h))
  Carries-settle t r c rest (inr (inl h)) (some (kept, d)) a = inl (a.4 t (inr h))

  -- Each candidate seen so far is kept or dropped, and each one dropped names one that is kept.
  abbrev pub Accounts : (Text → Bool) → ℕ → DeduplicationResult → List RerankedEvidence → Type 0
  Accounts p n r rest =
      (occurrences p (map id_of r.candidates)
          + occurrences p (dropped_ids r.decisions)
          + occurrences p (map id_of rest)
        ≡ n)
      × All (λ d. contains d.kept_candidate_id (map id_of r.candidates) ≡ true) r.decisions

  pub Accounts-settle :
      (p : Text → Bool) (n : ℕ) (r : DeduplicationResult) (c : RerankedEvidence)
      (rest : List RerankedEvidence)
      → Accounts p n r (c ∷ rest)
      → (o : Option (List RerankedEvidence × DuplicateDecision))
      → Absorbed ops overlap near r.candidates c o
      → Accounts p n (settle r c o) rest
  unfolding settle
  Accounts-settle p n r c rest (total, known) none a = rw (map-append_one id_of r.candidates c) (
    ground (arith, occurrences-append p (map id_of r.candidates) (id_of c ∷ [])),
    All-map
        (λ d h.
          ground
            (arith, contains-append d.kept_candidate_id (map id_of r.candidates) (id_of c ∷ [])))
        r.decisions known,
  )
  Accounts-settle p n r c rest (total, known) (some (kept, d)) a =
      rw (map-append_one (λ d. d.dropped_candidate_id) r.decisions d, a.1)
        (
          ground (
            arith,
            occurrences-append p (dropped_ids r.decisions) (d.dropped_candidate_id ∷ []),
            a.2,
          ),
          All-append (λ d. contains d.kept_candidate_id (map id_of r.candidates) ≡ true) r.decisions
              (d ∷ []) known (a.3, tt),
        )
