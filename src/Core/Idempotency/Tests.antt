-- ===== src/Core/Idempotency/Tests.antt =====
-- Tests of the idempotency table, and its theorems at a concrete input.
use etoeragcb.Base.{ℕ, ◌≡◌, refl, inl, some, [], ◌∷◌, arith, ◌==◌, text_keys, if◌then◌else◌}
use etoeragcb.Base.Text.{Text, codes, text_eq, is_space, lstrip, strip}
use etoeragcb.Base.Dict.{get, set}
use etoeragcb.Base.Result.{ok, raise}
use etoeragcb.Core.Idempotency.{
  RowKey, row_keys, with_key, Row, Table, claimed, running, replay, conflict, unsafe_key, all_safe,
  is_key, validate_idempotency_key, microseconds, bare, fresh, finished, claim_same, claim_row,
  write, claim_idempotency, lock, locked_record, complete_row, complete_idempotency, fail_row,
  fail_idempotency,
}
use etoeragcb.Core.Idempotency.Claims.{claim_excludes, complete_replays}
use etoeragcb.Core.Idempotency.Steps.{done, more, failing, IsLater, rows_permanent}

program : Unit {0}
unfolding text_eq is_space lstrip strip get set all_safe is_key validate_idempotency_key
    microseconds claim_same claim_row write claim_idempotency lock locked_record complete_row
    complete_idempotency fail_row fail_idempotency
program = tt

-- As a client sends it, with a space at the end.
abbrev request : RowKey
request = record { tenant_id = 1; user_id = 2; operation = codes "chat"; key = codes "abcd-1234 " }

abbrev stored : RowKey
stored = with_key request (codes "abcd-1234")

abbrev digest : Text
digest = codes "d1"

abbrev open_row : Row Text
open_row = fresh digest 60 0

abbrev closed_row : Row Text
closed_row = finished open_row (codes "{}") (some 7) 5

too_short :
    claim_idempotency {J = Text} [] (with_key request (codes "abc")) digest 60 0 ≡ raise unsafe_key
unfolding program
too_short = refl

claim_excludes_example :
    claim_idempotency ((stored, open_row) ∷ []) request digest 30 59000000
    ≡ ok ((stored, open_row) ∷ [], bare (if digest == digest then running else conflict))
unfolding program
claim_excludes_example =
    claim_excludes [] ((stored, open_row) ∷ []) request digest 60 0 (bare claimed) refl (inl refl)
      digest 30 59000000 (omega arith)

complete_replays_example :
    (t : Table Text) × (complete_idempotency
        ((stored, open_row) ∷ [])
        request
        (codes "{}")
        (some 7)
        5
      ≡ ok t)
    × ((h : Text) (ttl now : ℕ)
        → claim_idempotency t request h ttl now
          ≡ ok (
            t,
            if digest == h
                then record { state = replay; response = some (codes "{}"); resource_id = some 7 }
                else bare conflict,
          ))
unfolding program
complete_replays_example =
    complete_replays [] ((stored, open_row) ∷ []) request digest 60 0 (bare claimed) refl (inl refl)
      (codes "{}") (some 7) 5

rows_permanent_example :
    (r : Row Text) × (get stored ((stored, closed_row) ∷ []) ≡ some r) × IsLater closed_row r
unfolding program
rows_permanent_example =
    rows_permanent ((stored, closed_row) ∷ []) ((stored, closed_row) ∷ [])
      (more _ _ _ (failing ((stored, closed_row) ∷ []) ((stored, closed_row) ∷ []) request 9 refl)
        (done _))
      stored closed_row refl
