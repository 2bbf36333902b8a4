-- ===== src/WriteBatch.antt =====
-- raftstore/engine.go: the batch of writes, and its safe point.
-- Parameters: the length of a key with its version, and the keys and the metadata of the transaction
-- engine. Writing a batch is a call of badger and of the lock store.
pub mod SafePoint
use unistore.Base.{
  ℕ, ◌+◌, leb, Bool, true, false, if◌then◌else◌, ◌&&◌, List, [], ◌∷◌, ◌++◌, length, take, Bytes,
  Option, none, some,
}

pub record Key : Type 0 where
  pub user_key : Bytes
  pub version : ℕ

pub record BatchEntry : Type 0 where
  pub key : Key
  pub value : Bytes
  pub user_meta : Bytes

pub record WriteBatch : Type 0 where
  pub entries : List BatchEntry
  pub lock_entries : List BatchEntry
  pub size : ℕ
  pub safe_point : ℕ
  pub safe_point_lock : ℕ
  pub safe_point_size : ℕ
  pub safe_point_undo : ℕ

unfoldable pub len : WriteBatch → ℕ
len wb = length wb.entries + length wb.lock_entries

abbrev pub add_entry : WriteBatch → BatchEntry → ℕ → WriteBatch
add_entry wb e n = record wb { entries = wb.entries ++ (e ∷ []); size = wb.size + n }

abbrev pub add_lock_entry : WriteBatch → BatchEntry → WriteBatch
add_lock_entry wb e = record wb { lock_entries = wb.lock_entries ++ (e ∷ []) }

unfoldable pub set_safe_point : WriteBatch → WriteBatch
set_safe_point wb = record wb {
  safe_point = length wb.entries;
  safe_point_lock = length wb.lock_entries;
  safe_point_size = wb.size;
}

-- A slice up to a bound, within the length of the slice.
unfoldable pub cut_to : ℕ → List BatchEntry → Option (List BatchEntry)
cut_to n es = if leb n (length es) then some (take n es) else none

abbrev pub rolled_back :
    WriteBatch → Option (List BatchEntry) → Option (List BatchEntry) → Option WriteBatch
rolled_back wb none ls = none
rolled_back wb (some es) none = none
rolled_back wb (some es) (some ls) =
    some (record wb { entries = es; lock_entries = ls; size = wb.safe_point_size })

unfoldable pub rollback_to_safe_point : WriteBatch → Option WriteBatch
unfolding cut_to
rollback_to_safe_point wb =
    rolled_back wb (cut_to wb.safe_point wb.entries) (cut_to wb.safe_point_lock wb.lock_entries)

unfoldable pub reset : WriteBatch → WriteBatch
reset wb = record {
  entries = [];
  lock_entries = [];
  size = 0;
  safe_point = 0;
  safe_point_lock = 0;
  safe_point_size = 0;
  safe_point_undo = 0;
}

module _ (key_len : Key → ℕ) (encode_extra_txn_status_key : Bytes → ℕ → Bytes)
    (new_user_meta : ℕ → ℕ → Bytes) (start_ts : Bytes → ℕ)
    (lock_meta_none lock_meta_delete : Bytes) where
  unfoldable pub set : WriteBatch → Key → Bytes → WriteBatch
  set wb key val =
      add_entry wb (record { key = key; value = val; user_meta = [] }) (key_len key + length val)

  unfoldable pub set_lock : WriteBatch → Bytes → Bytes → WriteBatch
  set_lock wb key val = add_lock_entry wb (record {
    key = record { user_key = key; version = 0 };
    value = val;
    user_meta = lock_meta_none;
  })

  unfoldable pub delete_lock : WriteBatch → Bytes → WriteBatch
  delete_lock wb key = add_lock_entry wb (record {
    key = record { user_key = key; version = 0 };
    value = [];
    user_meta = lock_meta_delete;
  })

  -- The size of the batch stays.
  unfoldable pub rollback : WriteBatch → Key → WriteBatch
  rollback wb key =
      add_entry wb
        (record {
          key = record {
            user_key = encode_extra_txn_status_key key.user_key key.version;
            version = key.version;
          };
          value = [];
          user_meta = new_user_meta key.version 0;
        })
        0

  unfoldable pub set_with_user_meta : WriteBatch → Key → Bytes → Bytes → WriteBatch
  set_with_user_meta wb key val user_meta =
      add_entry wb (record { key = key; value = val; user_meta = user_meta })
        (key_len key + length val + length user_meta)

  unfoldable pub set_op_lock : WriteBatch → Key → Bytes → WriteBatch
  set_op_lock wb key user_meta =
      add_entry wb
        (record {
          key = record {
            user_key = encode_extra_txn_status_key key.user_key (start_ts user_meta);
            version = key.version;
          };
          value = [];
          user_meta = user_meta;
        })
        (key_len key + length user_meta)

  unfoldable pub delete : WriteBatch → Key → WriteBatch
  delete wb key = add_entry wb (record { key = key; value = []; user_meta = [] }) (key_len key)
