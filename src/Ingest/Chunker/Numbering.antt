-- ===== src/Ingest/Chunker/Numbering.antt =====
-- How the chunks of a document are numbered, and how large they are.
use etoeragcb.Base.{
  ℕ, zero, suc, ◌+◌, ◌-◌, ◌≤◌, ◌<◌, ◌≡◌, refl, ap, sym, subst, ◌∙◌, List, [], ◌∷◌, ◌++◌, map,
  map-append_one, arith, All, All-append, length, length-append, leb, Bool-cases, inl, inr,
  numbers_from,
}
use etoeragcb.Base.Text.{strip}
use etoeragcb.Base.Result.{ok, bind-eq-ok, ok_injective}
use etoeragcb.Ingest.Chunker.{
  TokenSpan, SectionedBlock, BuiltChunk, Calls, token_windows, ChunkState, add_chunk, add_chunks,
  add_spans, is_blank, add_block, add_blocks, some_chunks, chunk_blocks,
}
use etoeragcb.Ingest.Chunker.Windows.{windows_cover}

numbers_from-suc :
    (start n : ℕ) → numbers_from start (suc n) ≡ numbers_from start n ++ (start + n) ∷ []
numbers_from-suc start zero = ap (λ k. k ∷ []) (omega arith)
numbers_from-suc start (suc n) =
    ap (λ ns. start ∷ ns)
      (numbers_from-suc (suc start) n
        ∙ ap (λ k. numbers_from (suc start) n ++ k ∷ []) (omega arith))

length_one_more : (cs : List BuiltChunk) (c : BuiltChunk) → suc (length cs) ≡ length (cs ++ c ∷ [])
length_one_more cs c = omega (arith, length-append cs (c ∷ []))

numbers_from_zero : (n : ℕ) → numbers_from 0 (suc n) ≡ numbers_from 0 n ++ n ∷ []
numbers_from_zero n = numbers_from-suc 0 n ∙ ap (λ k. numbers_from 0 n ++ k ∷ []) (omega arith)

module _ (calls : Calls) (max_tokens : ℕ) where
  -- Chunks are numbered from 0, and hold `max_tokens` tokens at most.
  pub record IsNumbered (chunks : List BuiltChunk) : Type 0 where
    pub indices : map (λ c. c.chunk_index) chunks ≡ numbers_from 0 (length chunks)
    pub sizes : All (λ c. c.token_count ≤ max_tokens) chunks

  IsNumbered-add_chunk :
      (block : SectionedBlock) (s : ChunkState) (window : List TokenSpan)
      → length window ≤ max_tokens
      → IsNumbered s.result
      → IsNumbered (add_chunk calls block s window).result
  unfolding add_chunk
  IsNumbered-add_chunk block s window small h = record {
    indices =
        map-append_one (λ c. c.chunk_index) s.result _
        ∙ ap (λ ns. ns ++ length s.result ∷ []) h.indices
        ∙ sym (numbers_from_zero (length s.result))
        ∙ ap (numbers_from 0) (length_one_more s.result _);
    sizes = All-append _ s.result _ h.sizes (small, tt);
  }

  IsNumbered-add_chunks :
      (block : SectionedBlock) (s : ChunkState) (windows : List (List TokenSpan))
      → All (λ w. length w ≤ max_tokens) windows
      → IsNumbered s.result
      → IsNumbered (add_chunks calls block s windows).result
  unfolding add_chunks
  IsNumbered-add_chunks block s [] small h = h
  IsNumbered-add_chunks block s (w ∷ ws) (this, rest) h =
      IsNumbered-add_chunks block (add_chunk calls block s w) ws rest
        (IsNumbered-add_chunk block s w this h)

  module _ (overlap : ℕ) (fits : overlap < max_tokens) where
    IsNumbered-add_spans :
        (block : SectionedBlock) (s s' : ChunkState) (spans : List TokenSpan)
        → add_spans calls max_tokens overlap block s spans ≡ ok s'
        → IsNumbered s.result
        → IsNumbered s'.result
    unfolding add_spans
    IsNumbered-add_spans block s s' [] e h = cc
    IsNumbered-add_spans block s s' (span ∷ spans) e h =
        subst (λ x. IsNumbered x.result) (ok_injective _ _ e)
          (IsNumbered-add_chunks block s
            (token_windows (length (span ∷ spans)) max_tokens (max_tokens - overlap) (span ∷ spans))
            (windows_cover (length (span ∷ spans)) max_tokens (max_tokens - overlap) (span ∷ spans)
              (omega arith) (omega arith) (omega arith) (omega arith)).1
            h)

    IsNumbered-add_block :
        (block : SectionedBlock) (s s' : ChunkState)
        → add_block calls max_tokens overlap block s ≡ ok s'
        → IsNumbered s.result
        → IsNumbered s'.result
    unfolding add_block
    IsNumbered-add_block block s s' e h =
        elim (Bool-cases (is_blank calls (strip block.text_original))) [
          | inl blank ↦ subst (λ x. IsNumbered x.result) (ok_injective _ _ (rw blank at e)) h
          | inr full ↦
              let (spans, given, rest) =
                bind-eq-ok (calls.token_spans block.text_original) _ (rw full at e) in
              IsNumbered-add_spans block s s' _ rest h
        ]

    IsNumbered-add_blocks :
        (blocks : List SectionedBlock) (s s' : ChunkState)
        → add_blocks calls max_tokens overlap blocks s ≡ ok s'
        → IsNumbered s.result
        → IsNumbered s'.result
    unfolding add_blocks
    IsNumbered-add_blocks [] s s' e h = subst (λ x. IsNumbered x.result) (ok_injective _ _ e) h
    IsNumbered-add_blocks (block ∷ blocks) s s' e h =
        let (middle, added, rest) = bind-eq-ok (add_block calls max_tokens overlap block s) _ e in
        IsNumbered-add_blocks blocks middle s' rest (IsNumbered-add_block block s middle added h)

  some_chunks-eq :
      (cs chunks : List BuiltChunk)
      → some_chunks calls cs ≡ ok chunks
      → (cs ≡ chunks) × (1 ≤ length chunks)
  unfolding some_chunks
  some_chunks-eq [] chunks e = cc
  some_chunks-eq (c ∷ cs) chunks e =
      let same : c ∷ cs ≡ chunks = ok_injective _ _ e in
      (same, subst (λ x. 1 ≤ length x) same (omega arith))

  -- Where a document is cut into chunks, the overlap is smaller than a chunk, there is a chunk, the
  -- chunks are numbered 0, 1 and so on through all blocks, and none holds more tokens than the limit.
  pub chunk_blocks_numbers :
      (overlap : ℕ) (blocks : List SectionedBlock) (chunks : List BuiltChunk)
      → chunk_blocks calls max_tokens overlap blocks ≡ ok chunks
      → (overlap < max_tokens) × (1 ≤ length chunks) × IsNumbered chunks
  unfolding chunk_blocks
  chunk_blocks_numbers overlap blocks chunks e = elim (Bool-cases (leb max_tokens overlap)) [
    | inl large ↦ absurd (ground arith)
    | inr small ↦
        let fits : overlap < max_tokens = ground arith in
        let (s, added, rest) =
          bind-eq-ok (add_blocks calls max_tokens overlap blocks _) _ (rw small at e) in
        let (same, many) = some_chunks-eq s.result chunks rest in
        (
          fits,
          many,
          subst IsNumbered same (
              IsNumbered-add_blocks overlap fits blocks _ s added
                (record { indices = refl; sizes = tt })),
        )
  ]
