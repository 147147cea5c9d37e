-- ===== src/ClientApi/Starts.antt =====
-- What a loop that waits for a lock starts with.
use raft_based_distributed_l.ClientApi.Rounds.{acquire_started, acquire_hop, Waiting}
use raft_based_distributed_l.ClientApi.Hops.{Hop-cases}
use raft_based_distributed_l.Node.ClientServer.DLocks.{AcquireResponse}
use raft_based_distributed_l.ClientApi.Answers.{
  on_handler-Answered, on_handler-client_id, IsGranted,
}
use raft_based_distributed_l.Node.CliSrvClient.{
  AcquireRequest, send_grpc_acquire_dlock, RaftRpcOutside,
}
use raft_based_distributed_l.Node.Connection.{Grpc}
use raft_based_distributed_l.ClientApi.{
  on_handler, preprocess_connections, DlockRaftClientApi, hop_to_leader, redirecting, returns,
  redirects, Hop,
}
use raft_based_distributed_l.Exec.{Result-cases, ok}
use raft_based_distributed_l.Prelude.{
  arith, ◌==◌, ◌∙◌, ◌^◌, ◌||◌, subst, ◌%◌, ltb, ap, ◌*◌, text_eq, not, Bool-cases, ◌≡◌, Option,
  Text, ℕ, none, some, true, inl, inr, refl, [], suc, zero,
}
use raft_based_distributed_l.ClientApi.Locks.{acquire_call}

module _ {World Conn : Type 0} (stubs : RaftRpcOutside World Conn) (client_id name : Text) where
  -- What a loop knows that waits for the lock.
  abbrev pub Knows : Waiting → Type 0
  Knows w =
      (w.lock_name ≡ name)
      × (w.start_query_tag ≡ true → IsGranted stubs client_id name w.recorded_nonce)

  abbrev pub HopKnows : Hop (Option Waiting) → Type 0
  HopKnows (returns none) = Unit {0}
  HopKnows (returns (some w)) = Knows w
  HopKnows (redirects leader left) = Unit {0}

module _ {World Conn : Type 0} (grpc : Grpc World Conn) (stubs : RaftRpcOutside World Conn)
    (now : World → ℕ) (client_id name : Text) where
  acquire_started-Knows :
      (address : Text) (expire timeout : ℕ) (conn : Conn) (request : AcquireRequest) (w : World)
      (response : AcquireResponse)
      → (stubs.acquire_dlock_service conn timeout request w).0 ≡ ok response
      → request.client_id ≡ client_id
      → request.lock_name ≡ name
      → Knows stubs client_id name (acquire_started address name expire response)
  unfolding acquire_started
  acquire_started-Knows address expire timeout conn request w response e c n =
      elim (Bool-cases (not response.pending || response.sequence == 0)) [
        | inr q ↦ rw (q, acquire_started) (refl, λ h. absurd (let z = h in cc))
        | inl q ↦
            rw (q, acquire_started)
              (
                refl,
                λ h. record {
                  conn = conn;
                  timeout = timeout;
                  request = request;
                  world = w;
                  response = response;
                  answer = e;
                  of_client = c;
                  of_lock = n;
                  granted = ground arith;
                  nonce_is = refl;
                },
              )
      ]

  acquire_hop-Knows :
      (address : Text) (expire timeout spent elapsed : ℕ) (conn : Conn) (request : AcquireRequest)
      (w : World) (response : AcquireResponse)
      → (stubs.acquire_dlock_service conn spent request w).0 ≡ ok response
      → request.client_id ≡ client_id
      → request.lock_name ≡ name
      → HopKnows stubs client_id name
          (acquire_hop address name expire timeout elapsed (ok response))
  unfolding acquire_hop hop_to_leader
  acquire_hop-Knows address expire timeout spent elapsed conn request w response e c n =
      elim (Bool-cases (text_eq response.current_leader [])) [
        | inl t ↦
            rw (t, acquire_hop)
              (acquire_started-Knows address expire spent conn request w response e c n)
        | inr t ↦ elim (Bool-cases (ltb elapsed (timeout * 1000000))) [
          | inl q ↦ rw (t, acquire_hop, q, hop_to_leader) tt
          | inr q ↦ rw (t, acquire_hop, q, hop_to_leader) tt
        ]
      ]

  acquire_call-Knows :
      (expire : ℕ) (address : Text) (timeout : ℕ) (a : DlockRaftClientApi World Conn)
      → a.client_id ≡ client_id
      → HopKnows stubs client_id name (acquire_call grpc stubs now name expire address timeout a).0
        × ((acquire_call grpc stubs now name expire address timeout a).1.client_id ≡ client_id)
  unfolding acquire_call send_grpc_acquire_dlock preprocess_connections
  acquire_call-Knows expire address timeout a i =
      let request : AcquireRequest = record {
        lock_name = name;
        client_id = a.client_id;
        expire = expire * 1000000 % 2 ^ 64;
        sequence = 0;
      } in
      let a' = preprocess_connections address timeout a in
      let kept =
        on_handler-client_id address (λ c. send_grpc_acquire_dlock grpc stubs c request) a' in
      (
        elim (Result-cases
            (on_handler address (λ c. send_grpc_acquire_dlock grpc stubs c request) a').0) [
              | inr (x, q) ↦ rw (q, acquire_call) tt
              | inl (r, q) ↦
                  let (c, (conn, w, e)) =
                    on_handler-Answered grpc address
                      (λ c conn. stubs.acquire_dlock_service conn c.timeout request) a' r q in
                  rw (q, acquire_call)
                    (acquire_hop-Knows address expire timeout c.timeout _ conn request w r e i refl)
            ],
        kept ∙ i,
      )

  pub redirecting-Knows :
      (expire fuel : ℕ) (address : Text) (timeout : ℕ) (a : DlockRaftClientApi World Conn)
      (w : Waiting)
      → a.client_id ≡ client_id
      → (redirecting (acquire_call grpc stubs now name expire) fuel address timeout a).0
        ≡ some (some w)
      → Knows stubs client_id name w
        × ((redirecting
              (acquire_call grpc stubs now name expire)
              fuel
              address
              timeout
              a).1.client_id
            ≡ client_id)
  unfolding redirecting
  redirecting-Knows expire zero address timeout a w i e = absurd (let z = e in cc)
  redirecting-Knows expire (suc fuel) address timeout a w i e =
      let (known, kept) = acquire_call-Knows expire address timeout a i in
      elim (Hop-cases (acquire_call grpc stubs now name expire address timeout a).0) [
        | inr (leader, left, q) ↦
            rw (q, redirecting)
              (redirecting-Knows expire fuel leader left _ w kept (rw (q, redirecting) at e))
        | inl (x, q) ↦
            let e' = rw (q, redirecting) at e in
            let same : x ≡ some w = ap (λ o. elim o [ none ↦ x | some y ↦ y ]) e' in
            rw (q, redirecting)
              (subst (λ y. HopKnows stubs client_id name (returns y)) same (rw (q) at known), kept)
      ]
