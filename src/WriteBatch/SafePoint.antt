-- ===== src/WriteBatch/SafePoint.antt =====
-- A rollback undoes what was added since the safe point.
use unistore.WriteBatch.{
  BatchEntry, WriteBatch, rollback_to_safe_point, Key, set, add_lock_entry, add_entry,
  set_safe_point, cut_to, set_with_user_meta, set_lock, delete_lock, rollback, delete, set_op_lock,
  rolled_back,
}
use mathlib.Core.List.{foldl}
use unistore.Base.{
  ℕ, ◌+◌, ◌≡◌, refl, sym, ap, ◌∙◌, List, [], ◌∷◌, ◌++◌, append-nil, append_assoc, length, some,
  Bytes, arith, length-append, take-length_append, ap₂,
}

-- `wb'` has the entries of `wb` and more, and the same safe point.
abbrev pub Extends : WriteBatch → WriteBatch → Type 0
Extends wb wb' =
    (es : List BatchEntry) × (ls : List BatchEntry) × (wb'.entries ≡ wb.entries ++ es)
    × (wb'.lock_entries ≡ wb.lock_entries ++ ls)
    × (wb'.safe_point ≡ wb.safe_point)
    × (wb'.safe_point_lock ≡ wb.safe_point_lock)
    × (wb'.safe_point_size ≡ wb.safe_point_size)
    × (wb'.safe_point_undo ≡ wb.safe_point_undo)

add_entry-Extends :
    (wb w : WriteBatch) (e : BatchEntry) (n : ℕ) → Extends wb w → Extends wb (add_entry w e n)
add_entry-Extends wb w e n (es, ls, p, q, a, b, c, d) = (
  es ++ (e ∷ []),
  ls,
  ap (λ t. t ++ (e ∷ [])) p ∙ append_assoc wb.entries es (e ∷ []),
  q,
  a,
  b,
  c,
  d,
)

add_lock_entry-Extends :
    (wb w : WriteBatch) (e : BatchEntry) → Extends wb w → Extends wb (add_lock_entry w e)
add_lock_entry-Extends wb w e (es, ls, p, q, a, b, c, d) = (
  es,
  ls ++ (e ∷ []),
  p,
  ap (λ t. t ++ (e ∷ [])) q ∙ append_assoc wb.lock_entries ls (e ∷ []),
  a,
  b,
  c,
  d,
)

-- The calls that add to a batch.
pub data Add : Type 0 where
  sets : Key → Bytes → Add
  sets_with_user_meta : Key → Bytes → Bytes → Add
  sets_lock : Bytes → Bytes → Add
  deletes_lock : Bytes → Add
  rolls_back deletes : Key → Add
  sets_op_lock : Key → Bytes → Add

cut_to-append : (xs ys : List BatchEntry) → cut_to (length xs) (xs ++ ys) ≡ some xs
unfolding cut_to
cut_to-append xs ys = ground (arith, length-append xs ys, take-length_append xs ys)

rollback-Extends :
    (wb w : WriteBatch)
    → Extends (set_safe_point wb) w
    → rollback_to_safe_point w ≡ some (set_safe_point wb)
unfolding rollback_to_safe_point set_safe_point
rollback-Extends wb w (es, ls, p, q, a, b, c, d) =
    let cut : cut_to w.safe_point w.entries ≡ some wb.entries =
      ap₂ cut_to a p ∙ cut_to-append wb.entries es in
    let cut_locks : cut_to w.safe_point_lock w.lock_entries ≡ some wb.lock_entries =
      ap₂ cut_to b q ∙ cut_to-append wb.lock_entries ls in
    ap₂ (rolled_back w) cut cut_locks ∙ ground (arith, a, b, c, d)

module _ (key_len : Key → ℕ) (encode_extra_txn_status_key : Bytes → ℕ → Bytes)
    (new_user_meta : ℕ → ℕ → Bytes) (start_ts : Bytes → ℕ)
    (lock_meta_none lock_meta_delete : Bytes) where
  unfoldable pub add : WriteBatch → Add → WriteBatch
  unfolding set set_with_user_meta set_lock delete_lock rollback delete set_op_lock
  add wb (sets key val) =
      set key_len encode_extra_txn_status_key new_user_meta start_ts lock_meta_none lock_meta_delete
        wb key val
  add wb (sets_with_user_meta key val meta) =
      set_with_user_meta key_len encode_extra_txn_status_key new_user_meta start_ts lock_meta_none
        lock_meta_delete wb key val meta
  add wb (sets_lock key val) =
      set_lock key_len encode_extra_txn_status_key new_user_meta start_ts lock_meta_none
        lock_meta_delete wb key val
  add wb (deletes_lock key) =
      delete_lock key_len encode_extra_txn_status_key new_user_meta start_ts lock_meta_none
        lock_meta_delete wb key
  add wb (rolls_back key) =
      rollback key_len encode_extra_txn_status_key new_user_meta start_ts lock_meta_none
        lock_meta_delete wb key
  add wb (deletes key) =
      delete key_len encode_extra_txn_status_key new_user_meta start_ts lock_meta_none
        lock_meta_delete wb key
  add wb (sets_op_lock key meta) =
      set_op_lock key_len encode_extra_txn_status_key new_user_meta start_ts lock_meta_none
        lock_meta_delete wb key meta

  abbrev pub add_all : WriteBatch → List Add → WriteBatch
  add_all wb adds = foldl add wb adds

  add-Extends : (wb w : WriteBatch) (c : Add) → Extends wb w → Extends wb (add w c)
  unfolding add
  add-Extends wb w (sets key val) x = add_entry-Extends wb w _ (key_len key + length val) x
  add-Extends wb w (sets_with_user_meta key val meta) x =
      add_entry-Extends wb w _ (key_len key + length val + length meta) x
  add-Extends wb w (sets_lock key val) x = add_lock_entry-Extends wb w _ x
  add-Extends wb w (deletes_lock key) x = add_lock_entry-Extends wb w _ x
  add-Extends wb w (rolls_back key) x = add_entry-Extends wb w _ 0 x
  add-Extends wb w (deletes key) x = add_entry-Extends wb w _ (key_len key) x
  add-Extends wb w (sets_op_lock key meta) x =
      add_entry-Extends wb w _ (key_len key + length meta) x

  add_all-Extends : (wb w : WriteBatch) (cs : List Add) → Extends wb w → Extends wb (add_all w cs)
  add_all-Extends wb w [] x = x
  add_all-Extends wb w (c ∷ cs) x = add_all-Extends wb (add w c) cs (add-Extends wb w c x)

  -- After a safe point is set, a rollback to it undoes every sequence of calls that add entries,
  -- locks and sizes to the batch, and never panics.
  pub rollback_to_safe_point-add_all :
      (wb : WriteBatch) (adds : List Add)
      → rollback_to_safe_point (add_all (set_safe_point wb) adds) ≡ some (set_safe_point wb)
  rollback_to_safe_point-add_all wb adds = rollback-Extends wb (add_all (set_safe_point wb) adds) (
      add_all-Extends (set_safe_point wb) (set_safe_point wb) adds (
        [],
        [],
        sym (append-nil (set_safe_point wb).entries),
        sym (append-nil (set_safe_point wb).lock_entries),
        refl,
        refl,
        refl,
        refl,
      ))
