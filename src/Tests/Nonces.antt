-- ===== src/Tests/Nonces.antt =====
-- A row on which step 1 holds nonce 7 and nonce 5 was dropped, in a table that serves every request of
-- a lone worker.
use privadex.Prelude.{
  ◌≡◌, refl, ◌∙◌, subst, ◌⊎◌, Bool-cases, inl, inr, [], ◌∷◌, if◌then◌else◌, arith,
}
use privadex.Prelude.Fallible.{Outcome, ok, err}
use privadex.Coordinator.Table.{
  Requests, none_yet, Entry, NonceRow, UpdateRequest, NonceTable, DynamoDbError,
  conditional_check_failed, IsServed, applied, refused,
}
use privadex.Coordinator.Nonces.{get_nonce, finalize_execstep, drop_execstep_from_id}

abbrev pub serve : UpdateRequest → NonceRow → Outcome DynamoDbError NonceRow × NonceRow
serve q row =
    if q.condition row
    then (ok (q.update row), q.update row)
    else (err conditional_check_failed, row)

pub serve-IsServed :
    (q : UpdateRequest) (row : NonceRow) → IsServed q row (serve q row).1 (serve q row).0
serve-IsServed q row = elim (Bool-cases (q.condition row)) [
  | inl holds ↦ rw (holds) (applied holds refl refl)
  | inr fails ↦ rw (fails) (refused fails refl refl)
]

pub serve-grows :
    (q : UpdateRequest) (w r : NonceRow)
    → r ≡ (serve q w).1
    → (r ≡ w) ⊎ ((w ≡ r) ⊎ (r ≡ (serve q w).1))
serve-grows q w r h = inr (inr h)

pub read_back : (w r : NonceRow) → ◌≡◌ {A = Outcome DynamoDbError NonceRow} (ok w) (ok r) → r ≡ w
read_back w r h = ground arith

pub no_requests : (r s : NonceRow) → r ≡ s → Requests r s
no_requests r s h = subst (Requests r) h none_yet

abbrev pub table : NonceTable
table = record {
  World = NonceRow;
  row = λ w. w;
  Meanwhile = λ r s. r ≡ s;
  Readable = λ w r. r ≡ w;
  update_item = serve;
  get_item = λ w. (ok w, w);
  Meanwhile-Requests = no_requests;
  Meanwhile-trans = λ r s u a b. a ∙ b;
  update_item-IsServed = λ q w. (w, refl, serve-IsServed q w);
  update_item-Readable = serve-grows;
  get_item-Meanwhile = λ w. refl;
  get_item-reads = read_back;
  get_item-Readable = λ w r h. inl h;
}

abbrev pub busy_row : NonceRow
busy_row = record {
  block_at_last_confirmed_nonce = 90;
  dropped_nonces = 5 ∷ [];
  exec_step_pending_nonce = record { step = 1; value = 7 } ∷ [];
  exec_step_pending_block_added = record { step = 1; value = 100 } ∷ [];
  next_nonce = 8;
}

abbrev after_reclaim : NonceRow
after_reclaim = (get_nonce table 2 101 6 busy_row).1
