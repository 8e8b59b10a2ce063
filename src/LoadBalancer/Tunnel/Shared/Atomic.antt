-- ===== src/LoadBalancer/Tunnel/Shared/Atomic.antt =====
-- What `setupTunnels` does to the tunnels under the mutex is not mixed with what others do.
use cloud_provider_kind.Base.{
  String, ℕ, ◌≡◌, refl, sym, ap, ◌∙◌, some, List, [], ◌++◌, inl, inr, All,
}
use cloud_provider_kind.Base.Dict
use cloud_provider_kind.Base.Dict.{Dict}
use cloud_provider_kind.LoadBalancer.Tunnel.{Tunnel, Tunnels}
use cloud_provider_kind.LoadBalancer.Tunnel.Shared.{
  starting, unlocking, Managing, Step, Reach, critical,
}
use cloud_provider_kind.LoadBalancer.Tunnel.Shared.Under.{
  put_all, IsListening, IsUnder, Step-IsUnder,
}
use cloud_provider_kind.LoadBalancer.Tunnel.Shared.Exclusive.{
  IsExclusive, Step-IsExclusive, Reach-IsExclusive,
}
use cloud_provider_kind.World.{Result, ok, Env, World}

-- Steps of all goroutines in any order, while `i` holds the mutex.
pub data Held (e : Env) (i : ℕ) (s : Managing) : Managing → Type 0 where
  still : Held e i s s
  goes_on : {t u : Managing} → Held e i s t → Step e t u → u.shared.owner ≡ some i → Held e i s u

Held-owner :
    {e : Env} {i : ℕ} {s u : Managing}
    → Held e i s u
    → s.shared.owner ≡ some i
    → u.shared.owner ≡ some i
Held-owner still held = held
Held-owner (goes_on h st holds) held = holds

Held-IsExclusive : {e : Env} {i : ℕ} {s u : Managing} → Held e i s u → IsExclusive s → IsExclusive u
Held-IsExclusive still x = x
Held-IsExclusive (goes_on h st holds) x = Step-IsExclusive st (Held-IsExclusive h x)

Held-IsUnder :
    {e : Env} {i : ℕ} {s u : Managing} (name ip : String) (portmaps : Dict String)
    (ports : List String) (ts : Tunnels)
    → Held e i s u
    → IsExclusive s
    → s.shared.owner ≡ some i
    → IsUnder name ip portmaps ports ts s.shared.tunnels (s.pc i)
    → IsUnder name ip portmaps ports ts u.shared.tunnels (u.pc i)
Held-IsUnder name ip portmaps ports ts still x held v = v
Held-IsUnder {i} name ip portmaps ports ts (goes_on h st holds) x held v =
    Step-IsUnder name ip portmaps ports ts i st (Held-IsExclusive h x) (Held-owner h held) holds
      (Held-IsUnder name ip portmaps ports ts h x held v)

-- In every order of the steps of all goroutines: from where `setupTunnels` has locked the mutex to
-- where it unlocks it, the map of the tunnels has changed by nothing but the tunnels that this call
-- has started, put in one after the other. They are those of the ports that it visited first, each
-- listens on the address that was read before the lock and forwards to the published port, and if
-- the call returns no error it has visited all ports.
pub setup_is_atomic :
    (e : Env) (w : World) (i : ℕ) (s u : Managing) (name ip : String) (portmaps : Dict String)
    (ports : List String) (r : Result (Unit {0}))
    → Reach e w s
    → s.pc i ≡ starting name ip portmaps ports
    → Held e i s u
    → u.pc i ≡ unlocking r
    → (done : Dict Tunnel) × ((left : List String) × (ports ≡ Dict.keys done ++ left)
        × All (IsListening ip portmaps) done
        × (u.shared.tunnels ≡ put_all name done s.shared.tunnels)
        × (r ≡ ok tt → left ≡ []))
unfolding put_all Dict.keys
setup_is_atomic e w i s u name ip portmaps ports r reach begins h finishes =
    let x = Reach-IsExclusive reach in
    let v =
      Held-IsUnder name ip portmaps ports s.shared.tunnels h x (x.holds i (ap critical begins))
        (begun x) in
    (v.done, (v.left, v.split, v.listening, v.built, all_visited v))
  where
    begun :
        IsExclusive s → IsUnder name ip portmaps ports s.shared.tunnels s.shared.tunnels (s.pc i)
    begun x = record {
      done = [];
      left = ports;
      split = refl;
      listening = tt;
      built = refl;
      stands = inl begins;
    }

    all_visited :
        (v : IsUnder name ip portmaps ports s.shared.tunnels u.shared.tunnels (u.pc i))
        → r ≡ ok tt
        → v.left ≡ []
    all_visited v well = elim v.stands [
      | inl at' ↦
          let wrong : starting name ip portmaps v.left ≡ unlocking r = sym at' ∙ finishes in
          absurd (cc)
      | inr (q, at', visited) ↦
          let both : unlocking q ≡ unlocking r = sym at' ∙ finishes in visited (cc)
    ]
