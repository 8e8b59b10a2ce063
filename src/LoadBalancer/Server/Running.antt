-- ===== src/LoadBalancer/Server/Running.antt =====
-- With a container runtime that keeps its promises, `EnsureLoadBalancer` has a running container
-- before it configures it.
use cloud_provider_kind.Base.{
  String, ◌<>◌, string_eq, Bool, Bool-cases, ◌≡◌, ◌≢◌, ==-self, refl, sym, ap, ◌∙◌, arith, true,
  false, some, none, Option, List, [], ◌∷◌, ◌⊎◌, inl, inr, Option-cases,
}
use cloud_provider_kind.Api.{Service}
use cloud_provider_kind.Container.{exist, is_running, delete, create, printed, is_nil}
use cloud_provider_kind.LoadBalancer.Names.{load_balancer_name}
use cloud_provider_kind.LoadBalancer.Server.{Server, remove_stale, create_missing}
use cloud_provider_kind.LoadBalancer.Server.Create.{create_args, create_load_balancer, wrap_create}
use cloud_provider_kind.LoadBalancer.Proxy.Update.{proxy_image}
use cloud_provider_kind.World.{Err, ok, Output, Action, run, get_env, Trace, Env, World, check}

abbrev pub ps_call : String → String → Action
ps_call rt name = run (rt ∷ "ps" ∷ "-q" ∷ "-f" ∷ ("name=" <> name) ∷ []) none

abbrev pub inspect_call : String → String → Action
inspect_call rt name = run (rt ∷ "inspect" ∷ name ∷ []) none

abbrev pub rm_call : String → String → Action
rm_call rt name = run (rt ∷ "rm" ∷ "-f" ∷ name ∷ []) none

abbrev pub run_call : String → String → List String → Action
run_call rt name args = run (rt ∷ "run" ∷ "--name" ∷ name ∷ args) none

-- The calls among these that only look.
pub data IsRead (rt : String) : Action → Type 0 where
  ps : (name : String) → IsRead rt (ps_call rt name)
  inspect : (name : String) → IsRead rt (inspect_call rt name)
  environ : (name : String) → IsRead rt (get_env name)

-- A name that contains another one.
abbrev pub Contains : String → String → Type 0
Contains n name = (front behind : String) × (n ≡ front <> (name <> behind))

-- What the runtime's documentation says of the commands that `EnsureLoadBalancer` begins with:
-- `present` and `live` tell which containers are there, and which run, after some calls. The
-- filter of `ps` finds the running containers whose name contains the given one; `inspect` fails
-- exactly for what is not there; `rm -f` removes; and `run --detach` has started its container when
-- it returns without an error.
pub record Runtime (e : Env) : Type 0 where
  pub present : Trace → String → Bool
  pub live : Trace → String → Bool
  pub live-present : (h : Trace) (name : String) → live h name ≡ true → present h name ≡ true
  pub ps_finds_none :
      (h : Trace) (name : String)
      → ((n : String) → live h n ≡ true → Contains n name → ⊥)
      → (e.answer h (ps_call e.runtime name)).stdout ≡ ""
  pub inspect_finds :
      (h : Trace) (name : String)
      → present h name ≡ true
      → (e.answer h (inspect_call e.runtime name)).error ≡ none
  pub inspect_fails :
      (h : Trace) (name : String)
      → present h name ≡ false
      → (e.answer h (inspect_call e.runtime name)).error ≢ none
  pub read_keeps_live :
      (h : Trace) (a : Action) (name : String)
      → IsRead e.runtime a
      → live (a ∷ h) name ≡ live h name
  pub read_keeps_present :
      (h : Trace) (a : Action) (name : String)
      → IsRead e.runtime a
      → present (a ∷ h) name ≡ present h name
  pub rm_lem :
      (h : Trace) (name : String)
      → (e.answer h (rm_call e.runtime name)).error ≡ none
      → present (rm_call e.runtime name ∷ h) name ≡ false
  pub run_lem :
      (h : Trace) (name : String) (args : List String)
      → (e.answer h (run_call e.runtime name ("--detach" ∷ args))).error ≡ none
      → live (run_call e.runtime name ("--detach" ∷ args) ∷ h) name ≡ true

-- No other running container has a name that contains this one.
abbrev pub IsAlone : {e : Env} → Runtime e → Trace → String → Type 0
IsAlone r h name = (n : String) → r.live h n ≡ true → Contains n name → n ≡ name

pub none_of_check : (o : Option Err) → check o ≡ ok tt → o ≡ none
none_of_check none h = refl
none_of_check (some x) h = absurd (cc)

wrap_create-ok :
    (name : String) (args : List String) (o : Option Err)
    → wrap_create name args (check o) ≡ ok tt
    → o ≡ none
wrap_create-ok name args none h = refl
wrap_create-ok name args (some x) h = absurd (cc)

module _ (e : Env) (r : Runtime e) where
  -- The container runs or is not there.
  abbrev IsSettled : String → Trace → Type 0
  IsSettled name h = (r.live h name ≡ true) ⊎ (r.present h name ≡ false)

  ps_lem :
      (h : Trace) (name : String)
      → IsAlone r h name
      → printed (e.answer h (ps_call e.runtime name)) ≡ true
      → r.live h name ≡ true
  ps_lem h name alone up = elim (Bool-cases (r.live h name)) [
    | inl up' ↦ up'
    | inr down ↦
        let quiet = r.ps_finds_none h name (λ n l c.
          let is = alone n l c in
          let wrong : true ≡ false = sym l ∙ ap (r.live h) is ∙ down in absurd (cc)) in
        absurd (silent (e.answer h (ps_call e.runtime name)) quiet up)
  ]
    where
      silent : (out : Output) → out.stdout ≡ "" → printed out ≡ true → ⊥
      silent out quiet up = elim (Option-cases out.error) [
        | inl fine ↦
            let wrong : false ≡ true = rw (fine, quiet, ==-self {A = String} "") at up in
            absurd (cc)
        | inr (x, failed) ↦ let wrong : false ≡ true = rw failed at up in absurd (cc)
      ]

  inspect_there :
      (h : Trace) (name : String)
      → is_nil (e.answer h (inspect_call e.runtime name)).error ≡ true
      → r.present h name ≡ true
  inspect_there h name fine = elim (Bool-cases (r.present h name)) [
    | inl up' ↦ up'
    | inr down ↦ absurd (r.inspect_fails h name down (none_of_is_nil _ fine))
  ]
    where
      none_of_is_nil : (o : Option Err) → is_nil o ≡ true → o ≡ none
      none_of_is_nil none is = refl
      none_of_is_nil (some x) is = absurd (cc)

  inspect_gone :
      (h : Trace) (name : String)
      → is_nil (e.answer h (inspect_call e.runtime name)).error ≡ false
      → r.present h name ≡ false
  inspect_gone h name failed = elim (Bool-cases (r.present h name)) [
    | inr down ↦ down
    | inl there ↦
        let fine = r.inspect_finds h name there in
        let wrong : true ≡ false = rw fine at failed in absurd (cc)
  ]

  remove_stale_lem :
      (name : String) (w : World)
      → IsAlone r w.trace name
      → (remove_stale name e w).0 ≡ ok tt
      → IsSettled name (remove_stale name e w).1.trace
  unfolding remove_stale is_running exist delete
  remove_stale_lem name w alone done =
      let h1 = ps_call e.runtime name ∷ w.trace in
      let h2 = inspect_call e.runtime name ∷ h1 in
      elim (Bool-cases (printed (e.answer w.trace (ps_call e.runtime name)))) [
        | inl up ↦
            rw up (inl (r.read_keeps_live w.trace _ name (ps name) ∙ ps_lem w.trace name alone up))
        | inr down ↦ elim (Bool-cases (is_nil (e.answer h1 (inspect_call e.runtime name)).error)) [
          | inl there ↦
              let removed : check (e.answer h2 (rm_call e.runtime name)).error ≡ ok tt =
                rw (down, there) at done in
              rw (down, there) (inr (r.rm_lem h2 name (none_of_check _ removed)))
          | inr gone ↦
              rw (down, gone)
                (inr (r.read_keeps_present h1 _ name (inspect name) ∙ inspect_gone h1 name gone))
        ]
      ]

  create_load_balancer_lem :
      (s : Server) (cluster_name : String) (service : Service) (w : World)
      → let name = load_balancer_name cluster_name service in
        let after = create_load_balancer s.tunnel_manager cluster_name service proxy_image e w in
        after.0 ≡ ok tt → r.live after.1.trace name ≡ true
  unfolding create_load_balancer create create_args
  create_load_balancer_lem s cluster_name service w done =
      r.run_lem _ _ _ (wrap_create-ok _ _ _ done)

  create_missing_lem :
      (s : Server) (cluster_name : String) (service : Service) (w : World)
      → IsSettled (load_balancer_name cluster_name service) w.trace
      → (create_missing s cluster_name service e w).0 ≡ ok tt
      → r.live
          (create_missing s cluster_name service e w).1.trace
          (load_balancer_name cluster_name service)
        ≡ true
  unfolding create_missing exist
  create_missing_lem s cluster_name service w settled done =
      let name = load_balancer_name cluster_name service in
      let call = inspect_call e.runtime name in
      elim (Bool-cases (is_nil (e.answer w.trace call).error)) [
        | inl there ↦
            let present : r.present w.trace name ≡ true = inspect_there w.trace name there in
            let up : r.live w.trace name ≡ true = elim settled [
              | inl up ↦ up
              | inr gone ↦ absurd (ground arith)
            ] in
            rw there (r.read_keeps_live w.trace call name (inspect name) ∙ up)
        | inr gone ↦
            let w1 : World = record w { trace = call ∷ w.trace } in
            let created : (create_load_balancer s.tunnel_manager cluster_name service proxy_image e
                  w1).0
                ≡ ok tt =
              rw gone at done in
            rw gone (create_load_balancer_lem s cluster_name service w1 created)
      ]

-- With a runtime that keeps the laws above, if the steps of `EnsureLoadBalancer` that make the
-- container ready return no error, the container of the service runs, whatever its state was: it
-- ran, was there and did not run, or was not there. No other running container may have a name
-- that contains the name of this one, since the filter of `ps` would find it.
pub ensure_running :
    (e : Env) (r : Runtime e) (s : Server) (cluster_name : String) (service : Service) (w : World)
    → let name = load_balancer_name cluster_name service in
      let w1 = (remove_stale name e w).1 in
      IsAlone r w.trace name
      → (remove_stale name e w).0 ≡ ok tt
      → (create_missing s cluster_name service e w1).0 ≡ ok tt
      → r.live (create_missing s cluster_name service e w1).1.trace name ≡ true
ensure_running e r s cluster_name service w alone removed created =
    create_missing_lem e r s cluster_name service _ (remove_stale_lem e r _ w alone removed) created
