-- ===== src/ClientApi/Confirmed.antt =====
-- What a lock that an application has acquired rests on.
use raft_based_distributed_l.ClientApi.Rounds.{
  Round, refreshed_waiting, AcquireTick, Waiting, queried, QueryTick,
}
use raft_based_distributed_l.ClientApi.Starts.{redirecting-Knows, Knows}
use raft_based_distributed_l.ClientApi.Hops.{Round-cases}
use raft_based_distributed_l.Node.ClientServer.DLocks.{AcquireResponse}
use raft_based_distributed_l.ClientApi.Answers.{
  on_handler-Answered, on_handler-client_id, IsSeen, IsGranted,
}
use raft_based_distributed_l.Node.CliSrvClient.{
  AcquireRequest, send_grpc_query_dlock, send_grpc_acquire_dlock, RaftRpcOutside,
}
use raft_based_distributed_l.Node.Connection.{Grpc}
use raft_based_distributed_l.ClientApi.{on_handler, timeout_of, DlockRaftClientApi, redirecting}
use raft_based_distributed_l.Exec.{Result-cases, ok}
use raft_based_distributed_l.Prelude.{
  if◌then◌else◌, Bool, leb, arith, ◌∙◌, ◌^◌, subst, sym, ◌%◌, ap, ltb_i64, ◌*◌, text_eq, Bool-cases,
  ◌≡◌, Option, List, Text, ℕ, none, some, true, false, inl, inr, refl, [], ◌∷◌,
}
use raft_based_distributed_l.ClientApi.Locks.{
  acquire_call, waiting, acquire_tick, confirm_tick, waiting_if, acquire_dlock,
}
use raft_based_distributed_l.ClientApi.Rounds.{
  ends, goes_on, query_tick, timer, query_ticker, refresh_ticker,
}

module _ {World Conn : Type 0} (grpc : Grpc World Conn) (stubs : RaftRpcOutside World Conn)
    (now : World → ℕ) (client_id name : Text) where
  abbrev Confirmed : Type 0
  Confirmed = (nonce : ℕ) × IsGranted stubs client_id name nonce × IsSeen stubs name nonce

  abbrev RoundKnows : Round → Type 0
  RoundKnows (ends false) = Unit {0}
  RoundKnows (ends true) = Confirmed
  RoundKnows (goes_on w) = Knows stubs client_id name w

  abbrev Good : Round × DlockRaftClientApi World Conn → Type 0
  Good r = RoundKnows r.0 × (r.1.client_id ≡ client_id)

  either-Good :
      (b : Bool) (x y : Round × DlockRaftClientApi World Conn)
      → (b ≡ true → Good x)
      → (b ≡ false → Good y)
      → Good (if b then x else y)
  either-Good true x y h k = h refl
  either-Good false x y h k = k refl

  queried-Knows :
      (w : Waiting) (a : DlockRaftClientApi World Conn)
      → Knows stubs client_id name w
      → w.start_query_tag ≡ true
      → RoundKnows (
          queried w
            (on_handler w.address (λ c. send_grpc_query_dlock grpc stubs c w.lock_name) a).0)
  unfolding queried send_grpc_query_dlock
  queried-Knows w a k s =
      elim (Result-cases
        (on_handler w.address (λ c. send_grpc_query_dlock grpc stubs c w.lock_name) a).0) [
          | inr (x, q) ↦ rw (q, queried) k
          | inl (r, q) ↦
              let (c, (conn, u, e)) =
                on_handler-Answered grpc w.address
                  (λ c conn. stubs.query_dlock_service conn c.timeout w.lock_name) a r q in
              elim (Bool-cases (leb w.recorded_nonce r.state.lock_nonce)) [
                | inr b ↦ rw (q, b, queried) k
                | inl b ↦
                    rw (q, b, queried)
                      (
                        w.recorded_nonce,
                        k.1 s,
                        record {
                          conn = conn;
                          timeout = c.timeout;
                          world = u;
                          response = r;
                          answer =
                              subst (λ n. (stubs.query_dlock_service conn c.timeout n u).0 ≡ ok r)
                                k.0 e;
                          reached = ground arith;
                        },
                      )
              ]
        ]

  confirm_tick-Knows :
      (t : QueryTick) (w : Waiting) (a : DlockRaftClientApi World Conn)
      → a.client_id ≡ client_id
      → Knows stubs client_id name w
      → Good (confirm_tick grpc stubs now t w a)
  unfolding confirm_tick send_grpc_query_dlock queried
  confirm_tick-Knows timer w a i k = (tt, i)
  confirm_tick-Knows query_ticker w a i k =
      let r = on_handler w.address (λ c. send_grpc_query_dlock grpc stubs c w.lock_name) a in
      let kept =
        on_handler-client_id w.address (λ c. send_grpc_query_dlock grpc stubs c w.lock_name) a in
      either-Good w.start_query_tag (queried w r.0, r.1) (goes_on w, a)
        (λ s. (queried-Knows w a k s, kept ∙ i)) (λ s. (k, i))

  refreshed_waiting-Knows :
      (w : Waiting) (spent : ℕ) (conn : Conn) (request : AcquireRequest) (u : World)
      (response : AcquireResponse)
      → (stubs.acquire_dlock_service conn spent request u).0 ≡ ok response
      → request.client_id ≡ client_id
      → request.lock_name ≡ name
      → w.lock_name ≡ name
      → w.start_query_tag ≡ false
      → RoundKnows (refreshed_waiting w (ok response))
  unfolding refreshed_waiting
  refreshed_waiting-Knows w spent conn request u response e c n m s =
      elim (Bool-cases (text_eq response.current_leader [])) [
        | inr t ↦ rw (t, refreshed_waiting) tt
        | inl t ↦ elim (Bool-cases response.pending) [
          | inl q ↦ rw (t, q, refreshed_waiting) (m, λ h. absurd (let z = sym s ∙ h in cc))
          | inr q ↦
              rw (t, q, refreshed_waiting)
                (
                  m,
                  λ h. record {
                    conn = conn;
                    timeout = spent;
                    request = request;
                    world = u;
                    response = response;
                    answer = e;
                    of_client = c;
                    of_lock = n;
                    granted = inl q;
                    nonce_is = refl;
                  },
                )
        ]
      ]

  acquire_tick-Knows :
      (t : AcquireTick) (w : Waiting) (a : DlockRaftClientApi World Conn)
      → a.client_id ≡ client_id
      → Knows stubs client_id name w
      → Good (acquire_tick grpc stubs now t w a)
  unfolding acquire_tick send_grpc_acquire_dlock refreshed_waiting
  acquire_tick-Knows (query_tick t) w a i k = confirm_tick-Knows t w a i k
  acquire_tick-Knows refresh_ticker w a i k =
      let request : AcquireRequest = record {
        lock_name = w.lock_name;
        client_id = a.client_id;
        expire = w.expire * 1000000 % 2 ^ 64;
        sequence = w.sequence;
      } in
      let r = on_handler w.address (λ c. send_grpc_acquire_dlock grpc stubs c request) a in
      let kept =
        on_handler-client_id w.address (λ c. send_grpc_acquire_dlock grpc stubs c request) a in
      either-Good w.start_query_tag (goes_on w, a) (refreshed_waiting w r.0, r.1) (λ s. (k, i))
        (λ s. (
          elim (Result-cases r.0) [
            | inr (x, q) ↦ rw (q, refreshed_waiting) tt
            | inl (response, q) ↦
                let (c, (conn, u, e)) =
                  on_handler-Answered grpc w.address
                    (λ c conn. stubs.acquire_dlock_service conn c.timeout request) a response q in
                rw (q) (refreshed_waiting-Knows w c.timeout conn request u response e i k.0 k.0 s)
          ],
          kept ∙ i,
        ))

  waiting-Confirmed :
      (ts : List AcquireTick) (w : Waiting) (a : DlockRaftClientApi World Conn)
      → a.client_id ≡ client_id
      → Knows stubs client_id name w
      → (waiting (acquire_tick grpc stubs now) ts w a).0 ≡ some true
      → Confirmed
  unfolding waiting
  waiting-Confirmed [] w a i k e = absurd (let z = e in cc)
  waiting-Confirmed (t ∷ ts) w a i k e =
      let (known, kept) = acquire_tick-Knows t w a i k in
      elim (Round-cases (acquire_tick grpc stubs now t w a).0) [
        | inr (w', q) ↦ waiting-Confirmed ts w' _ kept (rw (q) at known) (rw (q, waiting) at e)
        | inl (b, q) ↦
            let e' = rw (q, waiting) at e in
            let same : b ≡ true = ap (λ o. elim o [ none ↦ b | some y ↦ y ]) e' in
            subst (λ y. RoundKnows (ends y)) same (rw (q) at known)
      ]

  waiting_if-Confirmed :
      (ts : List AcquireTick) (r : Option (Option Waiting) × DlockRaftClientApi World Conn)
      → ((w : Waiting)
          → r.0 ≡ some (some w)
          → Knows stubs client_id name w × (r.1.client_id ≡ client_id))
      → (waiting_if (acquire_tick grpc stubs now) ts r).0 ≡ some true
      → Confirmed
  unfolding waiting_if
  waiting_if-Confirmed ts (none, a) k e = absurd (let z = e in cc)
  waiting_if-Confirmed ts (some none, a) k e = absurd (let z = e in cc)
  waiting_if-Confirmed ts (some (some w), a) k e =
      let (known, kept) = k w refl in waiting-Confirmed ts w a kept known e

-- If AcquireDLock of the client API returns true, then some node has answered an acquirement of
-- that lock for that client with a nonce, as not pending or without a sequence, and some node has
-- answered a query of the lock with a nonce that is not smaller, wherever the call was redirected
-- and however often it was refreshed.
pub acquire_dlock-Confirmed :
    {World Conn : Type 0} (grpc : Grpc World Conn) (stubs : RaftRpcOutside World Conn)
    (now : World → ℕ) (fuel : ℕ) (ticks : List AcquireTick) (address name : Text) (expire : ℕ)
    (timeout_optional : Option ℕ) (a : DlockRaftClientApi World Conn)
    → (acquire_dlock grpc stubs now fuel ticks address name expire timeout_optional a).0 ≡ some true
    → (nonce : ℕ) × IsGranted stubs a.client_id name nonce × IsSeen stubs name nonce
unfolding acquire_dlock
acquire_dlock-Confirmed grpc stubs now fuel ticks address name expire timeout_optional a e =
    elim (Bool-cases (ltb_i64 expire 0)) [
      | inl q ↦ absurd (let e' = rw (q, acquire_dlock) at e in cc)
      | inr q ↦
          waiting_if-Confirmed grpc stubs now a.client_id name ticks
            (redirecting (acquire_call grpc stubs now name expire) fuel address
              (timeout_of timeout_optional) a)
            (λ w h.
              redirecting-Knows grpc stubs now a.client_id name expire fuel address
                (timeout_of timeout_optional) a w refl h)
            (rw (q, acquire_dlock) at e)
    ]
