-- ===== src/LoadBalancer/Tunnel/Forward.antt =====
-- The goroutines of a tunnel that has started: the loop of `Start` that accepts connections, and
-- `handleConnection` for each of them, in any order. The other parts of the program go on in
-- between, so a step is answered at any history.
pub mod Served
pub mod Owned
use cloud_provider_kind.Base.{
  String, ℕ, ◌+◌, ◌==◌, nat_eq, if◌then◌else◌, Bool, true, false, ◌≡◌, List, [], ◌∷◌,
}
use cloud_provider_kind.Base.Family.{put}
use cloud_provider_kind.Base.Text.{join_host_port}
use cloud_provider_kind.LoadBalancer.Tunnel.{Tunnel}
use cloud_provider_kind.World.{Err, ok, err, Trace, Action, accept, dial, copy, close, Env}

-- How far `handleConnection` has come for a connection: not accepted yet; not dialled; returned
-- without a server, with an error that is logged only; copying, with whether the copy to the client
-- and the one to the server have ended; and returned.
pub data Stage : Type 0 where
  unborn : Stage
  accepted : ℕ → Stage
  failed : Stage
  copying : ℕ → ℕ → Bool → Bool → Stage
  returned : ℕ → ℕ → Stage

abbrev pub remote_address : Tunnel → String
remote_address t = join_host_port t.remote_ip t.remote_port

-- One step of `handleConnection`: the call it makes and the stage after it. The two copies run at
-- once; each is one call, made where it ends. `wg.Wait` waits for both, then the deferred
-- `remote.Close` runs.
pub data Handle (e : Env) (t : Tunnel) : Stage → Action → Stage → Type 0 where
  dials :
      (h : Trace) (local remote : ℕ)
      → e.answer h (dial (remote_address t)) ≡ ok remote
      → Handle e t (accepted local) (dial (remote_address t)) (copying local remote false false)
  refused :
      (h : Trace) (local : ℕ) (x : Err)
      → e.answer h (dial (remote_address t)) ≡ err x
      → Handle e t (accepted local) (dial (remote_address t)) failed
  to_client :
      (local remote : ℕ) (sent : Bool)
      → Handle e t
          (copying local remote false sent)
          (copy local remote)
          (copying local remote true sent)
  to_server :
      (local remote : ℕ) (received : Bool)
      → Handle e t
          (copying local remote received false)
          (copy remote local)
          (copying local remote received true)
  returns :
      (local remote : ℕ)
      → Handle e t (copying local remote true true) (close remote) (returned local remote)

-- The connections by the order in which they were accepted, and the calls of these goroutines, the
-- latest in front.
pub record Serving : Type 0 where
  pub accepting : Bool
  pub opened : ℕ
  pub stage : ℕ → Stage
  pub calls : List Action

-- A step of the loop of `Start` with this listener, which ends at the first error, or of a
-- connection.
pub data Step (e : Env) (t : Tunnel) (ln : ℕ) (s : Serving) : Serving → Type 0 where
  accepts :
      (h : Trace) (local : ℕ)
      → s.accepting ≡ true
      → e.answer h (accept ln) ≡ ok local
      → Step e t ln s (record {
        accepting = true;
        opened = s.opened + 1;
        stage = put s.opened (accepted local) s.stage;
        calls = accept ln ∷ s.calls;
      })
  stops :
      (h : Trace) (x : Err)
      → s.accepting ≡ true
      → e.answer h (accept ln) ≡ err x
      → Step e t ln s (record s { accepting = false; calls = accept ln ∷ s.calls })
  handles :
      (i : ℕ) (a : Action) (st : Stage)
      → Handle e t (s.stage i) a st
      → Step e t ln s (record s { stage = put i st s.stage; calls = a ∷ s.calls })

abbrev pub init : Serving
init = record { accepting = true; opened = 0; stage = λ _. unborn; calls = [] }

pub data Reach (e : Env) (t : Tunnel) (ln : ℕ) : Serving → Type 0 where
  start : Reach e t ln init
  later : {s u : Serving} → Reach e t ln s → Step e t ln s u → Reach e t ln u
