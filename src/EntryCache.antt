-- ===== src/EntryCache.antt =====
-- raftstore/peer_storage.go: the cache of the newest raft log entries.
-- The size of an entry's protobuf form, which is what `Size` returns and what the raft engine
-- stores, is a parameter. `none` is a panic.
pub mod Indexed
pub mod Append
use unistore.Base.{
  ℕ, zero, suc, ◌+◌, ◌-◌, min, ltb, leb, ◌==◌, Bool, true, false, if◌then◌else◌, not, ◌&&◌, ◌||◌,
  List, [], ◌∷◌, ◌++◌, length, take, drop, get_last_or, Bytes, Option, none, some,
}
use unistore.Base.Partial.{◌>>=◌}

pub data EntryType : Type 0 where
  entry_normal entry_conf_change : EntryType

pub record Entry : Type 0 where
  pub entry_type : EntryType
  pub term : ℕ
  pub index : ℕ
  pub content : Bytes

abbrev pub max_cache_capacity : ℕ
max_cache_capacity = 1024 - 1

unfoldable pub front : List Entry → Option Entry
front [] = none
front (e ∷ es) = some e

unfoldable pub back : List Entry → Option Entry
back [] = none
back (e ∷ es) = some (get_last_or e es)

module _ (size : Entry → ℕ) where
  -- The loop over the cached entries, from the one that should have index `i` on.
  unfoldable pub collect : ℕ → ℕ → ℕ → List Entry → List Entry → Option (List Entry × ℕ)
  collect max_size i fetch_size ents [] = some (ents, fetch_size)
  collect max_size i fetch_size ents (e ∷ es) =
      let fetched = fetch_size + size e in
      let rest = collect max_size (suc i) fetched (ents ++ (e ∷ [])) es in
      if not (e.index == i)
      then none
      else if not (fetched == size e) && ltb max_size fetched
      then some (ents, fetched)
      else rest

  unfoldable pub fetch_entries_to :
      List Entry → ℕ → ℕ → ℕ → ℕ → List Entry → Option (List Entry × ℕ)
  unfolding front collect
  fetch_entries_to cache begin end max_size fetch_size ents =
      if leb end begin then some ([], fetch_size) else do
        first ← front cache
        let cache_low = first.index
        elim (ltb begin cache_low) [
          | true ↦ none
          | false ↦
              collect max_size begin fetch_size ents
                (drop (begin - cache_low) (take (end - cache_low) cache))
        ]

-- What is left of the cache when entries from `first_index` on come in.
cut : Entry → List Entry → ℕ → Option (List Entry)
cut e es first_index =
    let cache_last = (get_last_or e es).index in
    if leb first_index cache_last
    then (if leb first_index e.index
        then some []
        else some (take (length (e ∷ es) - (cache_last - first_index + 1)) (e ∷ es)))
    else if ltb (cache_last + 1) first_index
    then none
    else some (e ∷ es)

cut_cache : List Entry → ℕ → Option (List Entry)
unfolding cut
cut_cache [] first_index = some []
cut_cache (e ∷ es) first_index = cut e es first_index

trim : List Entry → List Entry
trim cache =
    if ltb max_cache_capacity (length cache)
    then drop (length cache - max_cache_capacity) cache
    else cache

unfoldable pub append_entries : List Entry → List Entry → Option (List Entry)
unfolding cut_cache trim
append_entries cache [] = some cache
append_entries cache (e ∷ entries) = do
  left ← cut_cache cache e.index
  some (trim (left ++ (e ∷ entries)))

unfoldable pub compact_to : List Entry → ℕ → List Entry
compact_to [] idx = []
compact_to (e ∷ es) idx =
    if ltb idx e.index then e ∷ es else drop (min (idx - e.index) (length (e ∷ es))) (e ∷ es)
