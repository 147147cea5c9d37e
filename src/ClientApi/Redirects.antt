-- ===== src/ClientApi/Redirects.antt =====
-- The calls that go on at the leader come to an end.
use raft_based_distributed_l.ClientApi.Rounds.{Round, Waiting, AcquireTick, QueryTick}
use raft_based_distributed_l.ClientApi.Hops.{
  release_hop-IsCharged, acquire_hop-IsCharged, change_hop-IsCharged, Round-cases, IsCharged,
  Hop-cases, ms,
}
use raft_based_distributed_l.Node.CliSrvClient.{RaftRpcOutside}
use raft_based_distributed_l.Node.Connection.{Grpc}
use raft_based_distributed_l.ClientApi.Locks.{
  acquire_dlock, release_dlock, confirm_tick, acquire_tick, waiting, waiting_if, acquire_call,
  release_call,
}
use raft_based_distributed_l.ClientApi.Rounds.{timer, query_tick, ends}
use raft_based_distributed_l.Prelude.{
  ltb_i64, ◌+◌, ◌∷◌, ◌++◌, List, Bool, Bytes, [], Option, ◌≡◌, arith, Bool-cases, ◌^◌, Text, ◌<◌, ℕ,
  none, some, false, inl, inr, refl, suc, zero,
}
use Prim.Native.Nat.{◌/◌}
use raft_based_distributed_l.ClientApi.{redirects}
use raft_based_distributed_l.Prelude.{◌⊎◌, length, ◌-◌}
use raft_based_distributed_l.ClientApi.{
  del_state, put_state, del_state_hop, put_state_hop, redirecting, DlockRaftClientApi, Hop,
}

-- The whole milliseconds of some times in nanoseconds, added up.
abbrev pub whole_ms : List ℕ → ℕ
whole_ms [] = 0
whole_ms (e ∷ es) = e / ms + whole_ms es

module _ {World Conn A : Type 0} (now : World → ℕ)
    (call : Text → ℕ → DlockRaftClientApi World Conn → Hop A × DlockRaftClientApi World Conn) where
  -- Calls from node to node, each redirected by its answer, from an address with a timeout: the time
  -- that each took, and what is left of the timeout.
  pub data Redirected : Text → ℕ → DlockRaftClientApi World Conn → List ℕ → ℕ → Type 0 where
    not_yet :
        (address : Text) (timeout : ℕ) (a : DlockRaftClientApi World Conn)
        → Redirected address timeout a [] timeout
    onward :
        (address leader_address : Text) (timeout left rest : ℕ) (es : List ℕ)
        (a : DlockRaftClientApi World Conn)
        → (call address timeout a).0 ≡ redirects leader_address left
        → Redirected leader_address left (call address timeout a).1 es rest
        → Redirected address timeout a
            ((now (call address timeout a).1.world - now a.world) ∷ es)
            rest

  -- So many calls in a row are redirected, and they and what is left make up the timeout.
  abbrev pub IsDriven : ℕ → Text → ℕ → DlockRaftClientApi World Conn → Type 0
  IsDriven fuel address timeout a =
      (es : List ℕ) × (rest : ℕ) × Redirected address timeout a es rest
      × (length es ≡ fuel)
      × (rest + whole_ms es ≡ timeout)

  abbrev Charges : Type 0
  Charges =
      (address : Text) (timeout : ℕ) (a : DlockRaftClientApi World Conn)
      → timeout < 2 ^ 32
      → IsCharged timeout (now (call address timeout a).1.world - now a.world)
          (call address timeout a).0

  redirecting-cases :
      Charges
      → (fuel : ℕ) (address : Text) (timeout : ℕ) (a : DlockRaftClientApi World Conn)
      → timeout < 2 ^ 32
      → ((x : A) × ((redirecting call fuel address timeout a).0 ≡ some x))
        ⊎ IsDriven fuel address timeout a
  unfolding redirecting
  redirecting-cases charges zero address timeout a h =
      inr ([], timeout, not_yet address timeout a, refl, omega arith)
  redirecting-cases charges (suc fuel) address timeout a h =
      let charged = charges address timeout a h in
      let a' = (call address timeout a).1 in
      elim (Hop-cases (call address timeout a).0) [
        | inl (x, q) ↦ inl (x, rw (q, redirecting) refl)
        | inr (leader, left, q) ↦
            let paid : left + (now a'.world - now a.world) / ms ≡ timeout = rw (q) at charged in
            elim (redirecting-cases charges fuel leader left a' (omega arith)) [
              | inl (x, e) ↦ inl (x, rw (q, redirecting) e)
              | inr (es, rest, chain, count, sum) ↦ inr (
                (now a'.world - now a.world) ∷ es,
                rest,
                onward address leader timeout left rest es a q chain,
                omega arith,
                omega arith,
              )
            ]
      ]

module _ {World Conn : Type 0} (grpc : Grpc World Conn) (stubs : RaftRpcOutside World Conn)
    (now : World → ℕ) where
  put_state_hop-IsCharged :
      (key : Text) (value : Option Bytes) → Charges now (put_state_hop grpc stubs now key value)
  unfolding put_state_hop
  put_state_hop-IsCharged key value address timeout a h = change_hop-IsCharged timeout _ _ h

  del_state_hop-IsCharged : (key : Text) → Charges now (del_state_hop grpc stubs now key)
  unfolding del_state_hop
  del_state_hop-IsCharged key address timeout a h = change_hop-IsCharged timeout _ _ h

  acquire_call-IsCharged :
      (name : Text) (expire : ℕ) → Charges now (acquire_call grpc stubs now name expire)
  unfolding acquire_call
  acquire_call-IsCharged name expire address timeout a h =
      acquire_hop-IsCharged address name expire timeout _ _ h

  release_call-IsCharged : (name : Text) → Charges now (release_call grpc stubs now name)
  unfolding release_call
  release_call-IsCharged name address timeout a h = release_hop-IsCharged address name timeout _ _ h

module _ {World Conn T : Type 0}
    (tick : T → Waiting → DlockRaftClientApi World Conn → Round × DlockRaftClientApi World Conn)
    (last : T)
    (ends_it : (w : Waiting) (a : DlockRaftClientApi World Conn)
      → (tick last w a).0 ≡ ends false) where
  waiting-returns :
      (ts : List T) (w : Waiting) (a : DlockRaftClientApi World Conn)
      → (b : Bool) × ((waiting tick (ts ++ last ∷ []) w a).0 ≡ some b)
  unfolding waiting
  waiting-returns [] w a = (false, rw (ends_it w a, waiting) refl)
  waiting-returns (t ∷ ts) w a = elim (Round-cases (tick t w a).0) [
    | inl (b, q) ↦ (b, rw (q, waiting) refl)
    | inr (w', q) ↦ rw (q, waiting) (waiting-returns ts w' (tick t w a).1)
  ]

  waiting_if-returns :
      (ts : List T) (r : Option (Option Waiting) × DlockRaftClientApi World Conn)
      → ((x : Option Waiting) × (r.0 ≡ some x))
      → (b : Bool) × ((waiting_if tick (ts ++ last ∷ []) r).0 ≡ some b)
  unfolding waiting_if
  waiting_if-returns ts (none, a) (x, e) = absurd (let z = e in cc)
  waiting_if-returns ts (some none, a) e = (false, refl)
  waiting_if-returns ts (some (some w), a) e = waiting-returns ts w a

-- A call with a result.
abbrev pub Returns : {World Conn : Type 0} → Option Bool × DlockRaftClientApi World Conn → Type 0
Returns r = (b : Bool) × (r.0 ≡ some b)

-- For any answers of the nodes, any clock and any number of calls, if the timeout is a uint32:
-- PutState, DelState, AcquireDLock and ReleaseDLock each come to a result within that number of
-- calls, for the last two when the timer of their loop goes off, or all these calls are
-- redirected one after the other, and then the whole milliseconds of each of them and what is
-- left for the next call make up the timeout.
pub calls_return :
    {World Conn : Type 0} (grpc : Grpc World Conn) (stubs : RaftRpcOutside World Conn)
    (now : World → ℕ) (fuel : ℕ) (address key name : Text) (value : Option Bytes)
    (expire timeout : ℕ) (acquire_ticks : List AcquireTick) (release_ticks : List QueryTick)
    (a : DlockRaftClientApi World Conn)
    → timeout < 2 ^ 32
    → (Returns (put_state grpc stubs now fuel address key value (some timeout) a)
        ⊎ IsDriven now (put_state_hop grpc stubs now key value) fuel address timeout a)
      × (Returns (del_state grpc stubs now fuel address key (some timeout) a)
          ⊎ IsDriven now (del_state_hop grpc stubs now key) fuel address timeout a)
      × (Returns (
            acquire_dlock grpc stubs now fuel
              (acquire_ticks ++ query_tick timer ∷ [])
              address
              name
              expire
              (some timeout)
              a)
          ⊎ IsDriven now (acquire_call grpc stubs now name expire) fuel address timeout a)
      × (Returns (
            release_dlock grpc stubs now fuel
              (release_ticks ++ timer ∷ [])
              address
              name
              (some timeout)
              a)
          ⊎ IsDriven now (release_call grpc stubs now name) fuel address timeout a)
unfolding put_state del_state acquire_dlock release_dlock acquire_tick confirm_tick
calls_return grpc stubs now fuel address key name value expire timeout acquire_ticks release_ticks a
      h =
    (
      redirecting-cases now (put_state_hop grpc stubs now key value)
          (put_state_hop-IsCharged grpc stubs now key value) fuel address timeout a h,
      redirecting-cases now (del_state_hop grpc stubs now key)
          (del_state_hop-IsCharged grpc stubs now key) fuel address timeout a h,
      elim (Bool-cases (ltb_i64 expire 0)) [
        | inl e ↦ inl (false, rw (e, acquire_dlock) refl)
        | inr e ↦
            elim (redirecting-cases now (acquire_call grpc stubs now name expire)
              (acquire_call-IsCharged grpc stubs now name expire) fuel address timeout a h) [
                | inr driven ↦ inr driven
                | inl found ↦ inl (
                    rw (e, acquire_dlock)
                      (waiting_if-returns (acquire_tick grpc stubs now) (query_tick timer)
                        (λ w b. refl) acquire_ticks
                        (redirecting (acquire_call grpc stubs now name expire) fuel address timeout
                          a)
                        found))
              ]
      ],
      elim (redirecting-cases now (release_call grpc stubs now name)
          (release_call-IsCharged grpc stubs now name) fuel address timeout a h) [
            | inr driven ↦ inr driven
            | inl found ↦ inl (
                waiting_if-returns (confirm_tick grpc stubs now) timer (λ w b. refl) release_ticks
                  (redirecting (release_call grpc stubs now name) fuel address timeout a) found)
          ],
    )
