-- ===== src/ClientApi/Rounds.antt =====
-- What the calls for locks of dlock_api/dlock_raft_client_API.go do with one answer.
use raft_based_distributed_l.Node.ClientServer.DLocks.{
  ReleaseResponse, AcquireResponse, QueryResponse,
}
use raft_based_distributed_l.ClientApi.{hop_to_leader, Hop, returns}
use raft_based_distributed_l.Prelude.{
  ◌==◌, text_eq, ◌||◌, leb, not, if◌then◌else◌, Option, Text, ℕ, Bool, none, some, true, false, [],
}
use raft_based_distributed_l.Exec.{Result, ok, err}

-- The variables of a loop that waits. The sequence is that of the request.
pub record Waiting : Type 0 where
  pub address : Text
  pub lock_name : Text
  pub expire : ℕ
  pub sequence : ℕ
  pub start_query_tag : Bool
  pub recorded_nonce : ℕ

-- The loop ends, or goes on.
pub data Round : Type 0 where
  ends : Bool → Round
  goes_on : Waiting → Round

-- A tick of the ticker of queries, and the timer.
pub data QueryTick : Type 0 where
  query_ticker timer : QueryTick

pub data AcquireTick : Type 0 where
  query_tick : QueryTick → AcquireTick
  refresh_ticker : AcquireTick

pub record DlockQueryInfo : Type 0 where
  pub owner : Text
  pub nonce : ℕ
  pub timestamp : ℕ
  pub expire : ℕ
  pub pending_num : Option ℕ

-- The sequence stays 0 unless the acquirement is pending under another one.
unfoldable pub acquire_started : Text → Text → ℕ → AcquireResponse → Waiting
acquire_started address name expire response =
    if not response.pending || response.sequence == 0
    then record {
      address = address;
      lock_name = name;
      expire = expire;
      sequence = 0;
      start_query_tag = true;
      recorded_nonce = response.nonce;
    }
    else record {
      address = address;
      lock_name = name;
      expire = expire;
      sequence = response.sequence;
      start_query_tag = false;
      recorded_nonce = 0;
    }

-- The call ends without success, or waits.
unfoldable pub acquire_hop : Text → Text → ℕ → ℕ → ℕ → Result AcquireResponse → Hop (Option Waiting)
unfolding hop_to_leader
acquire_hop address name expire timeout elapsed (err _) = returns none
acquire_hop address name expire timeout elapsed (ok response) =
    if not (text_eq response.current_leader [])
    then hop_to_leader none timeout elapsed response.current_leader
    else returns (some (acquire_started address name expire response))

unfoldable pub release_hop : Text → Text → ℕ → ℕ → Result ReleaseResponse → Hop (Option Waiting)
unfolding hop_to_leader
release_hop address name timeout elapsed (err _) = returns none
release_hop address name timeout elapsed (ok response) =
    if not (text_eq response.current_leader [])
    then hop_to_leader none timeout elapsed response.current_leader
    else if response.released
    then returns (
        some (record {
          address = address;
          lock_name = name;
          expire = 0;
          sequence = 0;
          start_query_tag = true;
          recorded_nonce = response.nonce;
        }))
    else returns none

-- The answer of a query is compared with the recorded nonce, and not with the owner.
unfoldable pub queried : Waiting → Result QueryResponse → Round
queried w (err _) = goes_on w
queried w (ok response) =
    if leb w.recorded_nonce response.state.lock_nonce then ends true else goes_on w

-- The answer of a refresh.
unfoldable pub refreshed_waiting : Waiting → Result AcquireResponse → Round
refreshed_waiting w (err _) = ends false
refreshed_waiting w (ok response) =
    if not (text_eq response.current_leader [])
    then ends false
    else if response.pending
    then goes_on w
    else goes_on (record w { start_query_tag = true; recorded_nonce = response.nonce })
