-- ===== src/ClientApi/Hops.antt =====
-- What a redirection leaves of a timeout.
use raft_based_distributed_l.ClientApi.Rounds.{release_hop, acquire_hop, Round, Waiting}
use raft_based_distributed_l.Node.ClientServer.{ChangeResponse}
use raft_based_distributed_l.Node.ClientServer.DLocks.{AcquireResponse, ReleaseResponse}
use raft_based_distributed_l.ClientApi.Rounds.{goes_on, ends}
use raft_based_distributed_l.Prelude.{
  Bool, ltb→lt, [], text_eq, ◌⊎◌, ◌≡◌, ◌+◌, arith, ◌*◌, ltb, Bool-cases, ◌^◌, Text, ◌<◌, ℕ, none,
  false, inl, inr, refl,
}
use raft_based_distributed_l.Exec.{ok, err, Result}
use Prim.Native.Nat.{◌/◌}
use raft_based_distributed_l.ClientApi.{change_hop, hop_to_leader, returns, redirects, Hop}

-- A millisecond, in nanoseconds.
abbrev pub ms : ℕ
ms = 1000000

pub Hop-cases :
    {A : Type 0} (hop : Hop A)
    → ((x : A) × (hop ≡ returns x)) ⊎ ((leader : Text) × (left : ℕ) × (hop ≡ redirects leader left))
Hop-cases (returns x) = inl (x, refl)
Hop-cases (redirects leader left) = inr (leader, left, refl)

pub Round-cases :
    (round : Round) → ((b : Bool) × (round ≡ ends b)) ⊎ ((w : Waiting) × (round ≡ goes_on w))
Round-cases (ends b) = inl (b, refl)
Round-cases (goes_on w) = inr (w, refl)

-- A redirection takes the whole milliseconds of the call off the timeout.
abbrev pub IsCharged : {A : Type 0} → ℕ → ℕ → Hop A → Type 0
IsCharged timeout elapsed (returns _) = Unit {0}
IsCharged timeout elapsed (redirects leader left) = left + elapsed / ms ≡ timeout

pub hop_to_leader-IsCharged :
    {A : Type 0} (failure : A) (timeout elapsed : ℕ) (leader : Text)
    → timeout < 2 ^ 32
    → IsCharged timeout elapsed (hop_to_leader failure timeout elapsed leader)
unfolding hop_to_leader
hop_to_leader-IsCharged failure timeout elapsed leader h =
    elim (Bool-cases (ltb elapsed (timeout * 1000000))) [
      | inr q ↦ rw (q, hop_to_leader) tt
      | inl q ↦
          let less = ltb→lt elapsed (timeout * 1000000) q in rw (q, hop_to_leader) (omega arith)
    ]

pub change_hop-IsCharged :
    (timeout elapsed : ℕ) (r : Result ChangeResponse)
    → timeout < 2 ^ 32
    → IsCharged timeout elapsed (change_hop timeout elapsed r)
unfolding change_hop
change_hop-IsCharged timeout elapsed (err _) h = tt
change_hop-IsCharged timeout elapsed (ok r) h = elim (Bool-cases r.committed) [
  | inl c ↦ rw (c, change_hop) tt
  | inr c ↦ elim (Bool-cases (text_eq r.current_leader [])) [
    | inl t ↦ rw (c, t, change_hop) tt
    | inr t ↦
        rw (c, t, change_hop) (hop_to_leader-IsCharged false timeout elapsed r.current_leader h)
  ]
]

pub acquire_hop-IsCharged :
    (address name : Text) (expire timeout elapsed : ℕ) (r : Result AcquireResponse)
    → timeout < 2 ^ 32
    → IsCharged timeout elapsed (acquire_hop address name expire timeout elapsed r)
unfolding acquire_hop
acquire_hop-IsCharged address name expire timeout elapsed (err _) h = tt
acquire_hop-IsCharged address name expire timeout elapsed (ok r) h =
    elim (Bool-cases (text_eq r.current_leader [])) [
      | inl t ↦ rw (t, acquire_hop) tt
      | inr t ↦
          rw (t, acquire_hop) (hop_to_leader-IsCharged none timeout elapsed r.current_leader h)
    ]

pub release_hop-IsCharged :
    (address name : Text) (timeout elapsed : ℕ) (r : Result ReleaseResponse)
    → timeout < 2 ^ 32
    → IsCharged timeout elapsed (release_hop address name timeout elapsed r)
unfolding release_hop
release_hop-IsCharged address name timeout elapsed (err _) h = tt
release_hop-IsCharged address name timeout elapsed (ok r) h =
    elim (Bool-cases (text_eq r.current_leader [])) [
      | inr t ↦
          rw (t, release_hop) (hop_to_leader-IsCharged none timeout elapsed r.current_leader h)
      | inl t ↦ elim (Bool-cases r.released) [
        | inl c ↦ rw (t, c, release_hop) tt
        | inr c ↦ rw (t, c, release_hop) tt
      ]
    ]
