-- ===== src/PeerFsm/KeepsConsistent.antt =====
-- Snapshots, new peers and destroyed peers keep the table and the regions of a store consistent.
use unistore.Base.{
  ℕ, List, ◌≡◌, true, false, some, insert, IsU64, Bool-cases, ap, lookup-insert, inl, ◌∙◌,
  Option-cases, arith, ◌==◌, inr, ==_iff, subst, sym, ==_refl, refl, erase, Dict, Bool, subst₂, ◌≢◌,
  none, Bytes, lookup-erase,
}
use unistore.Region.{Region}
use unistore.Store.{MemStore, StoreMeta, region_id_to_bytes, region_id_from_bytes}
use unistore.Store.Effects.{Effect}
use unistore.PeerFsm.{
  PeerFsm, has_peers, remove_range, remove_region, destroy_meta, destroy_peer, clear_merges, ℕ,
  lookup,
}
use unistore.PeerFsm.Results.{add_range, on_ready_apply_snapshot, is_occupied}
use unistore.PeerFsm.Consistent.{IsConsistent, Added, add_range-Added}
use unistore.PeerFsm.Splitting.{
  IsSplitting, start_split, place_derived, end_split, other_region, same_end, deleted-keeps,
  remove_range_parts,
}

-- A region takes the place of one that has no peers.
start_new :
    {T : Type 0} (mem : MemStore T) (meta : StoreMeta T) (region : Region)
    → IsConsistent mem meta
    → is_occupied (lookup region.id meta.regions) ≡ false
    → IsU64 region.id
    → IsSplitting mem region (record meta { regions = insert region.id region meta.regions })
start_new mem meta region c free word =
    let find = λ (id : ℕ). lookup-insert region.id id region meta.regions in
    record {
      tabled = λ k b g.
          let (id, q, i, l, x, h) = c.tabled k b g in
          (id, q, i, find id ∙ other_region region id q meta.regions free l h, x, h);
      listed = λ id q l. elim (Bool-cases (region.id == id)) [
        | inl d ↦
            let ids : region.id ≡ id = (==_iff region.id id).0 d in
            let qs : region ≡ q = ground (arith, find id) in
            (
              subst IsU64 ids word,
              ap (λ (z : Region). z.id) (sym qs) ∙ ids,
              λ h n. absurd (n (sym ids)),
            )
        | inr d ↦ let (w, i, t) = c.listed id q (ground (arith, find id)) in (w, i, λ h n. t h)
      ];
      own = find region.id ∙ rw (==_refl region.id) refl;
    }

-- The range of the region of a snapshot is added to what its old region left.
end_snapshot :
    {T : Type 0} (mem : MemStore T) (store : ℕ) (meta m : StoreMeta T) (region : Region)
    → has_peers region ≡ true
    → IsSplitting mem region (record meta { regions = insert region.id region meta.regions })
    → add_range mem store meta region ≡ some m
    → IsConsistent mem (record m { regions = insert region.id region m.regions })
end_snapshot mem store meta m region has s e =
    let a = add_range-Added mem store meta region m e in
    let a' : Added mem (record meta { regions = insert region.id region meta.regions }) region
        (record m { regions = insert region.id region m.regions }) =
      record {
        was_free = a.was_free;
        is_there = a.is_there;
        others = a.others;
        same_regions = ap (λ d. insert region.id region d) a.same_regions;
      } in
    end_split mem region (record m { regions = insert region.id region m.regions })
      (place_derived mem region has (record meta { regions = insert region.id region meta.regions })
        (record m { regions = insert region.id region m.regions }) s a')
      a.is_there

-- When a peer applies a snapshot with peers for a region that the store knows as the previous
-- one, the table of end keys and the map of regions still fit each other, unless the handler
-- panics.
pub on_ready_apply_snapshot-IsConsistent :
    {T : Type 0} (mem : MemStore T) (store : ℕ) (meta : StoreMeta T) (prev region : Region)
    (meta' : StoreMeta T) (es : List Effect)
    → IsConsistent mem meta
    → lookup region.id meta.regions ≡ some prev
    → has_peers region ≡ true
    → on_ready_apply_snapshot mem store meta prev region ≡ some (meta', es)
    → IsConsistent mem meta'
unfolding on_ready_apply_snapshot
on_ready_apply_snapshot-IsConsistent mem store meta prev region meta' es c known has e =
    elim (Bool-cases (has_peers prev)) [
      | inl had ↦
          let m0 = record meta { region_ranges = (mem.delete meta.region_ranges prev.end_key).0 } in
          elim (Option-cases (add_range mem store m0 region)) [
            | inl q ↦ absurd (ground arith)
            | inr (m, q) ↦
                let same : record m { regions = insert region.id region m.regions } ≡ meta' =
                  ground arith in
                subst (IsConsistent mem) same (
                  end_snapshot mem store m0 m region has
                    (start_split mem meta region prev c known had) q)
          ]
      | inr none_had ↦ elim (Option-cases (add_range mem store meta region)) [
        | inl q ↦ absurd (ground arith)
        | inr (m, q) ↦
            let same : record m { regions = insert region.id region m.regions } ≡ meta' =
              ground arith in
            let free : is_occupied (lookup region.id meta.regions) ≡ false = ground arith in
            subst (IsConsistent mem) same (
              end_snapshot mem store meta m region has
                (start_new mem meta region c free (c.listed region.id prev known).0) q)
      ]
    ]

erase_self : (i : ℕ) (d : Dict Region) → lookup i (erase i d) ≡ none
erase_self i d = ground (arith, lookup-erase i i d)

erase_other :
    (i id : ℕ) (q : Region) (d : Dict Region)
    → lookup id (erase i d) ≡ some q
    → (i ≢ id) × (lookup id d ≡ some q)
erase_other i id q d e = ground (arith, lookup-erase i id d)

erase_ne : (i id : ℕ) (d : Dict Region) → i ≢ id → lookup id (erase i d) ≡ lookup id d
erase_ne i id d n = ground (arith, lookup-erase i id d)

-- A region without peers is forgotten.
forget_empty :
    {T : Type 0} (mem : MemStore T) (meta : StoreMeta T) (i : ℕ) (old : Region)
    → IsConsistent mem meta
    → lookup i meta.regions ≡ some old
    → has_peers old ≡ false
    → IsConsistent mem (record meta { regions = erase i meta.regions })
forget_empty mem meta i old c known had = record {
  tabled = λ k b g.
      let (id, q, j, l, x, h) = c.tabled k b g in
      let other : i ≢ id =
        λ e. let s : q ≡ old = cc (ap (λ n. lookup n meta.regions) e) in ground arith in
      (id, q, j, erase_ne i id meta.regions other ∙ l, x, h);
  listed = λ id q l. c.listed id q (erase_other i id q meta.regions l).1;
}

-- A region with peers is forgotten with its range.
forget_range :
    {T : Type 0} (mem : MemStore T) (meta : StoreMeta T) (i : ℕ) (old : Region)
    → IsConsistent mem meta
    → lookup i meta.regions ≡ some old
    → has_peers old ≡ true
    → IsConsistent mem (record meta {
      regions = erase i meta.regions;
      region_ranges = (mem.delete meta.region_ranges old.end_key).0;
    })
forget_range mem meta i old c known had =
    let (word, is_id, there) = c.listed i old known in
    record {
      tabled = λ k b g.
          let (ne, g') = deleted-keeps mem meta.region_ranges old.end_key k b g in
          let (id, q, j, l, x, h) = c.tabled k b g' in
          let other : i ≢ id = λ d. ne (
            sym x
            ∙ ap (λ (z : Region). z.end_key)
                (let s : q ≡ old = cc (ap (λ n. lookup n meta.regions) d) in s)) in
          (id, q, j, erase_ne i id meta.regions other ∙ l, x, h);
      listed = λ id q l.
          let (other, l') = erase_other i id q meta.regions l in
          let (w, j, t) = c.listed id q l' in
          (
            w,
            j,
            λ h.
                mem.get-delete_ne meta.region_ranges old.end_key q.end_key (λ z. other (
                  sym (
                    same_end mem meta id i w word
                      (sym (t h) ∙ ap (λ k. mem.get meta.region_ranges k) z ∙ there had))))
                ∙ t h,
          );
    }

clear_merges-kept :
    {T : Type 0} (meta : StoreMeta T) (id : ℕ)
    → ((clear_merges meta id).regions ≡ meta.regions)
      × ((clear_merges meta id).region_ranges ≡ meta.region_ranges)
unfolding clear_merges
clear_merges-kept meta id = ground arith

clear_merges-IsConsistent :
    {T : Type 0} (mem : MemStore T) (meta : StoreMeta T) (id : ℕ)
    → IsConsistent mem meta
    → IsConsistent mem (clear_merges meta id)
clear_merges-IsConsistent mem meta id c =
    let (r, t) = clear_merges-kept meta id in
    record {
      tabled =
          subst₂
            (λ ranges regions.
              (k b : Bytes)
              → mem.get ranges k ≡ some b
              → (i : ℕ) × (q : Region) × (region_id_from_bytes b ≡ some i)
                × (lookup i regions ≡ some q)
                × (q.end_key ≡ k)
                × (has_peers q ≡ true))
            (sym t) (sym r) c.tabled;
      listed =
          subst₂
            (λ ranges regions.
              (i : ℕ) (q : Region)
              → lookup i regions ≡ some q
              → IsU64 i
                × (q.id ≡ i)
                × (has_peers q ≡ true → mem.get ranges q.end_key ≡ some (region_id_to_bytes i)))
            (sym t) (sym r) c.listed;
    }

remove_region_parts :
    {T : Type 0} (mem : MemStore T) (meta m : StoreMeta T) (id : ℕ)
    → remove_region mem meta id false ≡ some m
    → m ≡ record meta { regions = erase id meta.regions }
unfolding remove_region
remove_region_parts mem meta m id e = ground arith

destroy_meta-IsConsistent :
    {T : Type 0} (mem : MemStore T) (destroyed : Bool) (meta : StoreMeta T) (p : PeerFsm)
    (meta' : StoreMeta T)
    → IsConsistent mem meta
    → lookup p.region_id meta.regions ≡ some p.region
    → destroy_meta mem destroyed meta p false ≡ some meta'
    → IsConsistent mem meta' × (lookup p.region_id meta'.regions ≡ none)
unfolding destroy_meta
destroy_meta-IsConsistent mem destroyed meta p meta' c known e =
    let m = clear_merges meta p.region_id in
    let cm = clear_merges-IsConsistent mem meta p.region_id c in
    let known' = ap (λ d. lookup p.region_id d) (clear_merges-kept meta p.region_id).0 ∙ known in
    elim (Bool-cases (has_peers p.region)) [
      | inl had ↦ elim (Option-cases (remove_range mem m p.region.end_key)) [
        | inl q ↦ absurd (ground arith)
        | inr (m1, q) ↦
            let e1 = remove_range_parts mem m m1 p.region.end_key q in
            let e2 = remove_region_parts mem m1 meta' p.region_id (ground arith) in
            let final : meta' ≡ record m {
              regions = erase p.region_id m.regions;
              region_ranges = (mem.delete m.region_ranges p.region.end_key).0;
            } =
              e2
              ∙ ap (λ (x : StoreMeta _). record x { regions = erase p.region_id x.regions }) e1 in
            (
              subst (IsConsistent mem) (sym final)
                  (forget_range mem m p.region_id p.region cm known' had),
              ap (λ (x : StoreMeta _). lookup p.region_id x.regions) final
                  ∙ erase_self p.region_id m.regions,
            )
      ]
      | inr had ↦
          let final = remove_region_parts mem m meta' p.region_id (ground arith) in
          (
            subst (IsConsistent mem) (sym final)
                (forget_empty mem m p.region_id p.region cm known' had),
            ap (λ (x : StoreMeta _). lookup p.region_id x.regions) final
                ∙ erase_self p.region_id m.regions,
          )
    ]

-- When a peer whose region is the store's is destroyed, not by its merge target and without a
-- panic, the table of end keys and the map of regions still fit each other and the region is gone
-- from the map.
pub destroy_peer-IsConsistent :
    {T : Type 0} (mem : MemStore T) (destroyed : Bool) (meta : StoreMeta T) (p : PeerFsm)
    (meta' : StoreMeta T) (p' : PeerFsm) (es : List Effect)
    → IsConsistent mem meta
    → lookup p.region_id meta.regions ≡ some p.region
    → destroy_peer mem destroyed meta p false ≡ some (meta', p', es)
    → IsConsistent mem meta' × (lookup p.region_id meta'.regions ≡ none)
unfolding destroy_peer
destroy_peer-IsConsistent mem destroyed meta p meta' p' es c known e =
    elim (Option-cases (destroy_meta mem destroyed meta p false)) [
      | inl q ↦ absurd (ground arith)
      | inr (m, q) ↦
          let same : m ≡ meta' = ground arith in
          let (k, gone) = destroy_meta-IsConsistent mem destroyed meta p m c known q in
          (
            subst (IsConsistent mem) same k,
            ap (λ (x : StoreMeta _). lookup p.region_id x.regions) (sym same) ∙ gone,
          )
    ]
