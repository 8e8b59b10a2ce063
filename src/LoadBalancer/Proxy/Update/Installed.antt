-- ===== src/LoadBalancer/Proxy/Update/Installed.antt =====
-- The files that envoy reads after `proxyUpdateLoadBalancer`, whether it succeeds or fails.
use cloud_provider_kind.Base.{
  String, string_eq, ◌≡◌, ◌≢◌, refl, sym, ◌∙◌, some, none, List, ◌∷◌, inl, inr, ◌⊎◌,
}
use cloud_provider_kind.Api.{Service, Node}
use cloud_provider_kind.Container.{exec}
use cloud_provider_kind.LoadBalancer.Names.{load_balancer_name}
use cloud_provider_kind.LoadBalancer.Proxy.Config.{ProxyConfigData, config_data}
use cloud_provider_kind.LoadBalancer.Proxy.Template.{lds, cds, proxy_config}
use cloud_provider_kind.LoadBalancer.Proxy.Update.{
  proxy_config_path_lds, proxy_config_path_cds, write_config, move_configs, rendered, net,
  wait_load_balancer_ready, update_service,
}
use cloud_provider_kind.LoadBalancer.Proxy.Update.Waits.{wait_load_balancer_ready-Keeps}
use cloud_provider_kind.World.{
  Err, ok, err, Env, World, lift, Leads, >>=-Leads, Keeps-Leads, given-Leads,
}
use cloud_provider_kind.LoadBalancer.Proxy.Update.Files.{
  Files, write_call, temporary, write-Holds, second-Both, move_configs-Both, Holds, Both,
  rendered_lem,
}

module _ (e : Env) (f : Files e) (name l c : String) where
  first_written :
      (text : String)
      → text ≡ l
      → Leads e
          (λ _. Unit {0})
          (write_config name proxy_config_path_lds text)
          (λ _. Holds e f name (temporary proxy_config_path_lds) l)
  first_written text is_l = rw (← is_l) (write-Holds e f name proxy_config_path_lds text)

  second_rendered :
      (d : ProxyConfigData)
      → proxy_config cds d ≡ ok c
      → Leads e
          (Holds e f name (temporary proxy_config_path_lds) l)
          (rendered cds d)
          (λ text w. Holds e f name (temporary proxy_config_path_lds) l w × (text ≡ c))
  second_rendered d is_c = record { lead = λ w a h done. (h, rendered_lem cds d c a e w is_c done) }

  waited :
      Leads e
        (Both e f name l c proxy_config_path_lds proxy_config_path_cds)
        (wait_load_balancer_ready name 30)
        (λ _. Both e f name l c proxy_config_path_lds proxy_config_path_cds)
  waited = Keeps-Leads e _ _ (
      wait_load_balancer_ready-Keeps e _
        (λ a w is_waiting h. (
          f.wait_keeps w.trace a name _ is_waiting ∙ h.0,
          f.wait_keeps w.trace a name _ is_waiting ∙ h.1,
        ))
        name 30)

-- If `proxyUpdateLoadBalancer` returns no error for a service, `/home/envoy/lds.yaml` and
-- `/home/envoy/cds.yaml` of its container hold the two templates rendered with the configuration of
-- the service and the nodes, when `cp` and the script with `mv` do to files what is documented.
pub update_service_files :
    (e : Env) (f : Files e) (cluster_name : String) (service : Service) (nodes : List Node)
    (l c : String) (w : World)
    → let name = load_balancer_name cluster_name service in
      let after = update_service cluster_name service nodes e w in
      proxy_config lds (config_data e.net service nodes) ≡ ok l
      → proxy_config cds (config_data e.net service nodes) ≡ ok c
      → after.0 ≡ ok tt
      → (f.content after.1.trace name "/home/envoy/lds.yaml" ≡ some l)
        × (f.content after.1.trace name "/home/envoy/cds.yaml" ≡ some c)
unfolding update_service
update_service_files e f cluster_name service nodes l c w is_l is_c done =
    let name = load_balancer_name cluster_name service in
    let d = config_data e.net service nodes in
    let lds_tmp = temporary proxy_config_path_lds in
    let R = λ (_ : Unit {0}). Both e f name l c proxy_config_path_lds proxy_config_path_cds in
    let all : Leads e (λ _. Unit {0}) (update_service cluster_name service nodes) R =
      >>=-Leads e _ (lift net) (λ n _. n ≡ e.net) _ R
        (record { lead = λ w' n _ h. let same : ok e.net ≡ ok n = h in sym (cc) })
        (λ n. given-Leads e _ _ R (λ is_net.
          let d' = config_data n service nodes in
          >>=-Leads e _ (rendered lds d') (λ text _. text ≡ l) _ R
            (record { lead = λ w' a _ h. rendered_lem lds d' l a e w' (rw is_net is_l) h })
            (λ lds_config. given-Leads e _ _ R (λ is_text.
              >>=-Leads e _ (write_config name proxy_config_path_lds lds_config)
                (λ _. Holds e f name lds_tmp l) _ R (first_written e f name l c lds_config is_text)
                (λ first.
                  >>=-Leads e _ (rendered cds d')
                    (λ text w'. Holds e f name lds_tmp l w' × (text ≡ c)) _ R
                    (second_rendered e f name l c d' (rw is_net is_c))
                    (λ cds_config.
                      >>=-Leads e _ (write_config name proxy_config_path_cds cds_config)
                        (λ _. Both e f name l c lds_tmp (temporary proxy_config_path_cds)) _ R
                        (second-Both e f name l c cds_config)
                        (λ second.
                          >>=-Leads e _ (move_configs name first second) R
                            (λ _. wait_load_balancer_ready name 30) R
                            (move_configs-Both e f name l c first second)
                            (λ _. waited e f name l c)))))))) in
    all.lead w tt tt done

-- If one of the two writes of `proxyUpdateLoadBalancer` fails, it returns that error, and no file
-- of the container has changed but the temporary ones.
pub update_service_stops :
    (e : Env) (f : Files e) (cluster_name : String) (service : Service) (nodes : List Node)
    (l c file : String) (x : Err) (w : World)
    → let name = load_balancer_name cluster_name service in
      let first = write_call e.runtime name proxy_config_path_lds l in
      let second = write_call e.runtime name proxy_config_path_cds c in
      let after = update_service cluster_name service nodes e w in
      proxy_config lds (config_data e.net service nodes) ≡ ok l
      → proxy_config cds (config_data e.net service nodes) ≡ ok c
      → file ≢ temporary proxy_config_path_lds
      → file ≢ temporary proxy_config_path_cds
      → ((e.answer w.trace first).error ≡ some x)
        ⊎ (((e.answer w.trace first).error ≡ none)
            × ((e.answer (first ∷ w.trace) second).error ≡ some x))
      → (after.0 ≡ err x) × (f.content after.1.trace name file ≡ f.content w.trace name file)
unfolding update_service exec
update_service_stops e f cluster_name service nodes l c file x w is_l is_c not_l not_c
      (inl failed) =
    let name = load_balancer_name cluster_name service in
    rw (is_l, failed) (refl, f.write_other w.trace name proxy_config_path_lds l file not_l)
update_service_stops e f cluster_name service nodes l c file x w is_l is_c not_l not_c
      (inr (fine, failed)) =
    let name = load_balancer_name cluster_name service in
    rw (is_l, fine, is_c, failed)
      (
        refl,
        f.write_other _ name proxy_config_path_cds c file not_c
            ∙ f.write_other w.trace name proxy_config_path_lds l file not_l,
      )
