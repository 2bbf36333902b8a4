-- ===== src/Tests/LeaseRuns.antt =====
-- The lease at concrete inputs.
use unistore.Lease.Invariant.{Inv, renew-Inv, new_lease-Inv}
use unistore.Lease.History.{
  run, step, run-remote_within_lease, asks_remote, renews, expire-inspect_remote,
}
use unistore.Lease.{
  inspect_remote, inspect, nsec_per_sec, Lease, unix_seconds, RemoteLease, u64_to_time, renew,
  Memory, store, time_to_u64, expire, new_lease, valid, maybe_new_remote_lease, expired,
  suspect_lease, suspect, renew_remote, maybe_new_remote_to, renew_remote_to, renew_bounds,
}
use unistore.Base.{ℕ, ◌+◌, ◌*◌, ◌≡◌, refl, [], ◌∷◌, some, arith}

abbrev nine_seconds : ℕ
nine_seconds = 9 * nsec_per_sec

-- The first of January 2020.
abbrev noon : ℕ
noon = (unix_seconds + 1577880000) * nsec_per_sec

abbrev blank : Memory
blank = record { word = λ a. 0; next = 0 }

abbrev remote_five : RemoteLease
remote_five = record { expired_time = 0; term = 5 }

abbrev with_remote : Lease
with_remote = record (new_lease nine_seconds) { remote = some remote_five }

abbrev one_word : Memory
one_word = record (store blank 0 0) { next = 1 }

abbrev renewed : Lease × Memory
renewed = renew with_remote one_word noon

asked_renewed :
    run (new_lease nine_seconds, blank) (asks_remote 5 ∷ renews noon ∷ [])
    ≡ some (renewed.0, renewed.1)
unfolding run step maybe_new_remote_lease maybe_new_remote_to renew new_lease
asked_renewed = refl

remote_is_valid : inspect_remote remote_five renewed.1 (noon + nsec_per_sec) ≡ valid
unfolding renew renew_remote renew_remote_to renew_bounds new_lease inspect_remote time_to_u64
    u64_to_time
remote_is_valid = ground arith

run-remote_within_lease_example : inspect renewed.0 (noon + nsec_per_sec) ≡ valid
run-remote_within_lease_example =
    run-remote_within_lease nine_seconds blank (asks_remote 5 ∷ renews noon ∷ []) renewed.0
      renewed.1 remote_five (noon + nsec_per_sec) (λ a. refl) (tt, ((omega arith, omega arith), tt))
      (omega arith) asked_renewed remote_is_valid

fresh-Inv : Inv (new_lease nine_seconds) blank
fresh-Inv = new_lease-Inv nine_seconds blank (λ a. refl)

renew-Inv_example :
    Inv (renew (new_lease nine_seconds) blank noon).0 (renew (new_lease nine_seconds) blank noon).1
renew-Inv_example =
    renew-Inv (new_lease nine_seconds) blank noon (unfold new_lease in (omega arith, omega arith))
      fresh-Inv

expire-inspect_remote_example :
    (inspect_remote remote_five (expire (new_lease nine_seconds) blank).1 noon ≡ expired)
    × (inspect_remote remote_five (suspect_lease (new_lease nine_seconds) blank noon).1 noon
        ≡ expired)
    × (inspect (expire (new_lease nine_seconds) blank).0 noon ≡ expired)
    × (inspect (suspect_lease (new_lease nine_seconds) blank noon).0 noon ≡ suspect)
expire-inspect_remote_example =
    expire-inspect_remote (new_lease nine_seconds) blank remote_five noon noon (omega arith)
      fresh-Inv

abbrev until_noon : Lease
until_noon = record (new_lease nine_seconds) { bound_valid = some noon }

abbrev suspected : Lease
suspected = record (new_lease nine_seconds) { bound_suspect = some noon }
