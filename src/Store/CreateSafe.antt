-- ===== src/Store/CreateSafe.antt =====
-- When a message makes the store create a peer.
use unistore.Base.{
  Bool, ℕ, ◌≡◌, Bytes, some, lookup, true, List, ap, ok, none, ◌⊎◌, false, ◌∷◌, arith, inr, ◌≢◌,
  inl, subst, Option-cases, Bool-cases, not, ◌&&◌, if◌then◌else◌, ◌++◌, [], subst₂, Outcome, Option,
  refl, err, panic, sym, ◌==◌, ◌||◌, ◌∙◌, ==_iff, compare_bytes, insert,
}
use unistore.Region.{Region, RegionEpoch, is_lt, is_epoch_stale, Peer}
use unistore.RaftMessage.{RaftMessage, is_initial_msg, is_first_vote_message}
use unistore.Store.{
  MemStore, StoreMeta, region_id_from_bytes, maybe_destroy_source, is_range_covered, after_key,
  Bool, ℕ, ◌≡◌, Bytes, is_some,
}
use unistore.Store.KeyOrder.{Lt, Le, lt_or_le, lt_or_eq, is_lt_of_lt, le_trans, le_of_lt}
use unistore.Store.Table.{
  IsTable, IsAfter, IsAfter-tail, first-Le, after_key-IsAfter, region_at_parts, region_at_of,
  ne-nil_of_lt,
}
use unistore.Store.Effects.{register, start_peer, peer_created}
use unistore.Store.Create.{
  StoredState, missing, unreadable, stored, Handled, check_msg, check_tombstone,
  check_not_tombstone, is_tombstone_state, check_ranges, create_checked, maybe_create_peer,
  create_unless, on_raft_message, replicate_region, StoreError, deliver_created,
}

-- What the engine may have of a region whose peer is created.
abbrev pub AllowsCreate : StoredState → RegionEpoch → Type 0
AllowsCreate missing epoch = Unit {0}
AllowsCreate unreadable epoch = ⊥
AllowsCreate (stored l) epoch =
    (is_tombstone_state l.state ≡ true)
    × (l.merge_state ≡ none)
    × (is_epoch_stale epoch l.region.region_epoch ≡ false)
    × (epoch.conf_ver ≢ l.region.region_epoch.conf_ver)

-- The regions of the table that end after a key begin at or after the end of the message's range,
-- or are sources of a merge that can be destroyed.
abbrev pub IsClear : {T : Type 0} → MemStore T → StoreMeta T → RegionEpoch → Bytes → Bytes → Type 0
IsClear mem meta epoch start end =
    (k b : Bytes) (id : ℕ) (r : Region)
    → mem.get meta.region_ranges k ≡ some b
    → region_id_from_bytes b ≡ some id
    → lookup id meta.regions ≡ some r
    → Lt start k
    → Le end r.start_key ⊎ (maybe_destroy_source meta id r.id epoch ≡ true)

module _ {T : Type 0} (mem : MemStore T) (meta : StoreMeta T) (table : IsTable mem meta)
    (msg : RaftMessage) (epoch : RegionEpoch) where
  same_region :
      (k b : Bytes) (j c : Bytes) (id id' : ℕ) (r s : Region)
      → mem.get meta.region_ranges k ≡ some b
      → mem.get meta.region_ranges j ≡ some c
      → k ≡ j
      → region_id_from_bytes b ≡ some id
      → region_id_from_bytes c ≡ some id'
      → lookup id meta.regions ≡ some r
      → lookup id' meta.regions ≡ some s
      → (id ≡ id') × (r ≡ s)
  same_region k b j c id id' r s g h e p q u v =
      let same : b ≡ c = cc (ap (λ t. mem.get meta.region_ranges t) e) in
      let ids : id ≡ id' = cc (ap region_id_from_bytes same) in
      (ids, cc (ap (λ t. lookup t meta.regions) ids))

  check_ranges-IsClear :
      (p : Bytes) (es : List (Bytes × Bytes)) (votes : List RaftMessage) (destroy : List ℕ)
      (votes' : List RaftMessage) (destroy' : List ℕ)
      → IsAfter mem meta.region_ranges p es
      → check_ranges mem meta msg epoch es votes destroy ≡ ok (votes', some destroy')
      → IsClear mem meta epoch p msg.end_key
  unfolding check_ranges
  check_ranges-IsClear p [] votes destroy votes' destroy' w e k b id r g i l lt =
      absurd (w.2 k b g lt)
  check_ranges-IsClear p (x ∷ es) votes destroy votes' destroy' w e k b id r g i l lt =
      let (s, at, ends) = table.holds x.0 x.1 w.1.0 in
      let (sid, si, sl) = region_at_parts meta.regions x.1 s at in
      let least = first-Le mem meta.region_ranges p x es k b w g lt in
      elim (lt_or_le s.start_key msg.end_key) [
        | inr m ↦ elim (lt_or_eq x.0 k least) [
          | inl later ↦ inl (
              le_trans msg.end_key s.start_key r.start_key m (
                le_trans s.start_key x.0 r.start_key
                  (le_of_lt s.start_key x.0
                    (table.proper x.0 x.1 s w.1.0 at (ne-nil_of_lt p x.0 w.0.0)))
                  (table.apart x.0 x.1 s k b r w.1.0 at g (region_at_of meta.regions b id r i l)
                    later)))
          | inr here ↦ inl (
              subst (λ (t : Region). Le msg.end_key t.start_key)
                (same_region x.0 x.1 k b sid id s r w.1.0 g here si i sl l).1 m)
        ]
        | inl m ↦ elim (Option-cases (is_range_covered mem meta msg.start_key msg.end_key)) [
          | inl c ↦ absurd (ground (arith, is_lt_of_lt s.start_key msg.end_key m))
          | inr (covered, c) ↦
              elim (Bool-cases (not covered && maybe_destroy_source meta sid s.id epoch)) [
                | inr other ↦ absurd (ground (arith, is_lt_of_lt s.start_key msg.end_key m))
                | inl source ↦ elim (lt_or_eq x.0 k least) [
                  | inl later ↦
                      check_ranges-IsClear x.0 es
                        (if is_first_vote_message msg.message then votes ++ (msg ∷ []) else votes)
                        (destroy ++ (s.id ∷ [])) votes' destroy'
                        (IsAfter-tail mem meta.region_ranges p x es w)
                        (ground (arith, is_lt_of_lt s.start_key msg.end_key m)) k b id r g i l later
                  | inr here ↦
                      let (ids, rs) = same_region x.0 x.1 k b sid id s r w.1.0 g here si i sl l in
                      let found : maybe_destroy_source meta sid s.id epoch ≡ true = ground arith in
                      inr (
                        subst₂
                          (λ (u : ℕ) (v : Region). maybe_destroy_source meta u v.id epoch ≡ true)
                          ids rs found)
                ]
              ]
        ]
      ]

-- Whether the store has the region.
abbrev pub Has : {T : Type 0} → StoreMeta T → ℕ → Type 0
Has meta id = (r : Region) × (lookup id meta.regions ≡ some r)

module _ {T : Type 0} (mem : MemStore T) (can_create : Region → Peer → Bool) (meta : StoreMeta T)
    (table : IsTable mem meta) (msg : RaftMessage) (epoch : RegionEpoch)
    (absent : lookup msg.region_id meta.regions ≡ none) where
  created-IsClear :
      (o : Outcome StoreError (List RaftMessage × Option (List ℕ)))
      → check_ranges mem meta msg epoch
          (after_key mem meta.region_ranges msg.start_key)
          meta.pending_votes
          []
        ≡ o
      → Has (create_checked mem can_create meta msg.region_id msg o).0 msg.region_id
      → IsClear mem meta epoch msg.start_key msg.end_key
  unfolding create_checked
  created-IsClear panic q (r, e) = absurd (ground arith)
  created-IsClear (err x) q (r, e) = absurd (ground arith)
  created-IsClear (ok (votes, none)) q (r, e) = absurd (ground arith)
  created-IsClear (ok (votes, some destroy)) q (r, e) =
      check_ranges-IsClear mem meta table msg epoch msg.start_key
        (after_key mem meta.region_ranges msg.start_key) meta.pending_votes [] votes destroy
        (after_key-IsAfter mem meta.region_ranges msg.start_key) q

  maybe_create_peer-IsClear :
      Has (maybe_create_peer mem can_create meta msg.region_id msg epoch).0 msg.region_id
      → (is_initial_msg msg.message ≡ true) × IsClear mem meta epoch msg.start_key msg.end_key
  unfolding maybe_create_peer
  maybe_create_peer-IsClear (r, e) = elim (Bool-cases (is_initial_msg msg.message)) [
    | inr other ↦ absurd (ground arith)
    | inl initial ↦ (
      initial,
      created-IsClear
          (check_ranges mem meta msg epoch (after_key mem meta.region_ranges msg.start_key)
            meta.pending_votes [])
          refl (r, (rw (absent, initial) at e)),
    )
  ]

  check_msg-AllowsCreate :
      (local : StoredState)
      → ((check_msg meta msg epoch local).0.regions ≡ meta.regions)
        × ((check_msg meta msg epoch local).2 ≡ ok false
            → AllowsCreate local epoch × ((check_msg meta msg epoch local).0 ≡ meta))
  unfolding check_msg check_tombstone check_not_tombstone
  check_msg-AllowsCreate missing = ground arith
  check_msg-AllowsCreate unreadable = ground arith
  check_msg-AllowsCreate (stored l) = ground arith

  deliver_created-kept : (h : Handled T Bool) → (deliver_created mem can_create msg h).0 ≡ h.0
  deliver_created-kept (m, es, panic) = refl
  deliver_created-kept (m, es, err x) = refl
  deliver_created-kept (m, es, ok true) = refl
  deliver_created-kept (m, es, ok false) = refl

  create_unless-IsClear :
      (local : StoredState) (h : Handled T Bool)
      → check_msg meta msg epoch local ≡ h
      → Has (create_unless mem can_create msg epoch h).0 msg.region_id
      → AllowsCreate local epoch
        × (is_initial_msg msg.message ≡ true)
        × IsClear mem meta epoch msg.start_key msg.end_key
  unfolding create_unless
  create_unless-IsClear local (meta', es, panic) q (r, e) =
      absurd (ground (arith, (check_msg-AllowsCreate local).0))
  create_unless-IsClear local (meta', es, err x) q (r, e) =
      absurd (ground (arith, (check_msg-AllowsCreate local).0))
  create_unless-IsClear local (meta', es, ok true) q (r, e) =
      absurd (ground (arith, (check_msg-AllowsCreate local).0))
  create_unless-IsClear local (meta', es, ok false) q (r, e) =
      let allowed = (check_msg-AllowsCreate local).1 (ap (λ (h : Handled T Bool). h.2) q) in
      let same : meta' ≡ meta = ap (λ (h : Handled T Bool). h.0) (sym q) ∙ allowed.1 in
      let kept : (deliver_created mem can_create msg
            (maybe_create_peer mem can_create meta' msg.region_id msg epoch)).0
          ≡ (maybe_create_peer mem can_create meta msg.region_id msg epoch).0 =
        deliver_created-kept (maybe_create_peer mem can_create meta' msg.region_id msg epoch)
        ∙ ap (λ m. (maybe_create_peer mem can_create m msg.region_id msg epoch).0) same in
      let (i, clear) =
        maybe_create_peer-IsClear
          (r, ap (λ (m : StoreMeta T). lookup msg.region_id m.regions) (sym kept) ∙ e) in
      (allowed.0, i, clear)

-- If a message for a region that neither the router nor the store has makes the region known to a
-- store with a table of regions that lie apart, then it is to this store, is no tombstone and an
-- initial message, the engine has no state of the region or that of a tombstone with no merge, a
-- conf version that differs from the message's and an epoch for which the message's is not stale,
-- and every region that ends after the message's start key begins at or after its end key or is a
-- source of a merge that can be destroyed.
pub on_raft_message-creates :
    {T : Type 0} (mem : MemStore T) (can_create : Region → Peer → Bool) (store : ℕ)
    (meta : StoreMeta T) (msg : RaftMessage) (local : StoredState)
    → IsTable mem meta
    → lookup msg.region_id meta.regions ≡ none
    → Has (on_raft_message mem can_create false store meta msg local).0 msg.region_id
    → (msg.to_peer.store_id ≡ store)
      × (msg.is_tombstone ≡ false)
      × (is_initial_msg msg.message ≡ true)
      × ((epoch : RegionEpoch) × (msg.region_epoch ≡ some epoch)
          × AllowsCreate local epoch
          × IsClear mem meta epoch msg.start_key msg.end_key)
unfolding on_raft_message
on_raft_message-creates mem can_create store meta msg local table absent (r, e) =
    elim (Bool-cases (msg.to_peer.store_id == store)) [
      | inr other ↦ absurd (ground arith)
      | inl same ↦ elim (Option-cases msg.region_epoch) [
        | inl q ↦ absurd (ground arith)
        | inr (epoch, q) ↦ elim (Bool-cases (msg.is_tombstone || is_some msg.merge_target)) [
          | inl t ↦ absurd (ground arith)
          | inr t ↦
              let (a, i, c) =
                create_unless-IsClear mem can_create meta table msg epoch absent local
                  (check_msg meta msg epoch local) refl (r, (rw (same, q, t) at e)) in
              ((==_iff msg.to_peer.store_id store).0 same, ground arith, i, (epoch, q, a, c))
        ]
      ]
    ]

compare_bytes-nil : (a : Bytes) → is_lt (compare_bytes a []) ≡ false
unfolding compare_bytes
compare_bytes-nil [] = refl
compare_bytes-nil (b ∷ bs) = refl

check_ranges_no_end :
    {T : Type 0} (mem : MemStore T) (meta : StoreMeta T) (table : IsTable mem meta)
    (msg : RaftMessage) (epoch : RegionEpoch) (p : Bytes) (es : List (Bytes × Bytes))
    → msg.end_key ≡ []
    → IsAfter mem meta.region_ranges p es
    → check_ranges mem meta msg epoch es meta.pending_votes [] ≡ ok (meta.pending_votes, some [])
unfolding check_ranges
check_ranges_no_end mem meta table msg epoch p [] q w = refl
check_ranges_no_end mem meta table msg epoch p (x ∷ es) q w =
    let (s, at, ends) = table.holds x.0 x.1 w.1.0 in
    let (id, i, l) = region_at_parts meta.regions x.1 s at in
    let late : is_lt (compare_bytes s.start_key msg.end_key) ≡ false =
      ap (λ e. is_lt (compare_bytes s.start_key e)) q ∙ compare_bytes-nil s.start_key in
    ground arith

-- An initial message with an empty end key for a region that a store with a table of regions does
-- not have makes the store create the peer, if the engines allow it, whatever regions the
-- message's range overlaps.
pub maybe_create_peer_no_end :
    {T : Type 0} (mem : MemStore T) (can_create : Region → Peer → Bool) (meta : StoreMeta T)
    (msg : RaftMessage) (epoch : RegionEpoch)
    → IsTable mem meta
    → lookup msg.region_id meta.regions ≡ none
    → is_initial_msg msg.message ≡ true
    → can_create (replicate_region msg.region_id) msg.to_peer ≡ true
    → msg.end_key ≡ []
    → maybe_create_peer mem can_create meta msg.region_id msg epoch ≡ (
      record meta { regions = insert msg.region_id (replicate_region msg.region_id) meta.regions },
      register (replicate_region msg.region_id) msg.to_peer
          ∷ start_peer msg.region_id
          ∷ peer_created (replicate_region msg.region_id)
          ∷ [],
      ok true,
    )
unfolding maybe_create_peer create_checked
maybe_create_peer_no_end mem can_create meta msg epoch table absent initial able q =
    let all =
      check_ranges_no_end mem meta table msg epoch msg.start_key
        (after_key mem meta.region_ranges msg.start_key) q
        (after_key-IsAfter mem meta.region_ranges msg.start_key) in
    rw (absent, initial, all, able) refl
