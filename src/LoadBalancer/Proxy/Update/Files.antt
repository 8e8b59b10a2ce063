-- ===== src/LoadBalancer/Proxy/Update/Files.antt =====
-- What `proxyUpdateLoadBalancer` does to the files that envoy reads.
use cloud_provider_kind.Base.{
  String, ◌<>◌, string_eq, ne_of_==, ◌≡◌, ◌≢◌, refl, sym, ◌∙◌, some, none, Option, ◌∷◌, [], inl,
  inr,
}
use cloud_provider_kind.Container.{exec}
use cloud_provider_kind.LoadBalancer.Proxy.Config.{ProxyConfigData}
use cloud_provider_kind.LoadBalancer.Proxy.Template.{Template, proxy_config}
use cloud_provider_kind.LoadBalancer.Proxy.Update.{
  proxy_config_path_lds, proxy_config_path_cds, write_config, moved, move_configs, rendered,
}
use cloud_provider_kind.LoadBalancer.Proxy.Update.Waits.{IsWait}
use cloud_provider_kind.World.{
  Err, ok, err, Output, Action, run, Trace, Env, World, check, Result-cases, Leads,
}

-- `cp /dev/stdin PATH.tmp` in a container, with a text to read.
abbrev pub write_call : String → String → String → String → Action
write_call rt name path text =
    run (rt ∷ "exec" ∷ "--privileged" ∷ "-i" ∷ name ∷ "cp" ∷ "/dev/stdin" ∷ (path <> ".tmp") ∷ [])
      (some text)

-- `mv` of both temporary files in a container.
abbrev pub move_call : String → String → Action
move_call rt name =
    run
      (rt ∷ "exec" ∷ "--privileged" ∷ name ∷ "bash" ∷ "-c"
        ∷ "chmod a+rw /home/envoy/* && mv /home/envoy/cds.yaml.tmp /home/envoy/cds.yaml && mv /home/envoy/lds.yaml.tmp /home/envoy/lds.yaml"
        ∷ [])
      none

abbrev pub temporary : String → String
temporary path = path <> ".tmp"

-- What the commands' documentation says of the files of a container: `cp` copies its input into
-- the named file and touches no other, the script with the two `mv` puts both files in place, and
-- the calls that read change nothing.
pub record Files (e : Env) : Type 0 where
  pub content : Trace → String → String → Option String
  pub write_lem :
      (h : Trace) (name path text : String)
      → (e.answer h (write_call e.runtime name path text)).error ≡ none
      → content (write_call e.runtime name path text ∷ h) name (temporary path) ≡ some text
  pub write_other :
      (h : Trace) (name path text file : String)
      → file ≢ temporary path
      → content (write_call e.runtime name path text ∷ h) name file ≡ content h name file
  pub move_cds :
      (h : Trace) (name : String)
      → (e.answer h (move_call e.runtime name)).error ≡ none
      → content (move_call e.runtime name ∷ h) name "/home/envoy/cds.yaml"
        ≡ content h name "/home/envoy/cds.yaml.tmp"
  pub move_lds :
      (h : Trace) (name : String)
      → (e.answer h (move_call e.runtime name)).error ≡ none
      → content (move_call e.runtime name ∷ h) name "/home/envoy/lds.yaml"
        ≡ content h name "/home/envoy/lds.yaml.tmp"
  pub wait_keeps :
      (h : Trace) (a : Action) (name file : String)
      → IsWait a
      → content (a ∷ h) name file ≡ content h name file

-- `check` and `moved` return no error only where there was none.
none_of_check : (o : Option Err) → check o ≡ ok tt → o ≡ none
none_of_check none h = refl
none_of_check (some x) h = absurd (cc)

none_of_moved : (s t : String) (o : Option Err) → moved s t o ≡ ok tt → o ≡ none
none_of_moved s t none h = refl
none_of_moved s t (some x) h = absurd (cc)

module _ (e : Env) (f : Files e) (name : String) where
  abbrev pub Holds : String → String → World → Type 0
  Holds file text w = f.content w.trace name file ≡ some text

  pub write_config-world :
      (path text : String) (w : World)
      → (write_config name path text e w).1
        ≡ record w { trace = write_call e.runtime name path text ∷ w.trace }
  unfolding write_config exec
  write_config-world path text w =
      elim (Result-cases (check (e.answer w.trace (write_call e.runtime name path text)).error)) [
        | inl (_, done) ↦ rw done refl
        | inr (x, failed) ↦ rw failed refl
      ]

  pub write_config-error :
      (path text : String) (w : World) (out : Output)
      → (write_config name path text e w).0 ≡ ok out
      → (e.answer w.trace (write_call e.runtime name path text)).error ≡ none
  unfolding write_config exec
  write_config-error path text w out h =
      elim (Result-cases (check (e.answer w.trace (write_call e.runtime name path text)).error)) [
        | inl (_, done) ↦ none_of_check _ done
        | inr (x, failed) ↦ let wrong : err x ≡ ok out = rw failed at h in absurd (cc)
      ]

  -- A write that succeeds puts its text into the temporary file, and keeps another one.
  pub write-Holds :
      (path text : String)
      → Leads e (λ _. Unit {0}) (write_config name path text) (λ _. Holds (temporary path) text)
  write-Holds path text = record {
    lead = λ w out _ done.
        rw (write_config-world path text w)
          (f.write_lem w.trace name path text (write_config-error path text w out done));
  }

  write-keeps :
      (path text file other : String)
      → file ≢ temporary path
      → Leads e (Holds file other) (write_config name path text) (λ _. Holds file other)
  write-keeps path text file other differs = record {
    lead = λ w out h done.
        rw (write_config-world path text w) (f.write_other w.trace name path text file differs ∙ h);
  }

  move_configs-error :
      (first second : Output) (w : World)
      → (move_configs name first second e w).0 ≡ ok tt
      → (e.answer w.trace (move_call e.runtime name)).error ≡ none
  unfolding move_configs exec
  move_configs-error first second w h = none_of_moved _ _ _ h

  move_configs-world :
      (first second : Output) (w : World)
      → (move_configs name first second e w).1
        ≡ record w { trace = move_call e.runtime name ∷ w.trace }
  unfolding move_configs exec
  move_configs-world first second w = refl

  module _ (l c : String) where
    -- Both texts in the files at these two paths.
    abbrev pub Both : String → String → World → Type 0
    Both lpath cpath w = Holds lpath l w × Holds cpath c w

    pub move_configs-Both :
        (first second : Output)
        → Leads e
            (Both (temporary proxy_config_path_lds) (temporary proxy_config_path_cds))
            (move_configs name first second)
            (λ _. Both proxy_config_path_lds proxy_config_path_cds)
    move_configs-Both first second = record {
      lead = λ w _ h done.
          let fine = move_configs-error first second w done in
          rw (move_configs-world first second w)
            (f.move_lds w.trace name fine ∙ h.0, f.move_cds w.trace name fine ∙ h.1);
    }

    temporaries-ne :
        ◌≢◌ {A = String} (temporary proxy_config_path_lds) (temporary proxy_config_path_cds)
    unfolding string_eq
    temporaries-ne = ne_of_== {A = String} _ _ refl

    pub second-Both :
        (text : String)
        → Leads e
            (λ w. Holds (temporary proxy_config_path_lds) l w × (text ≡ c))
            (write_config name proxy_config_path_cds text)
            (λ _. Both (temporary proxy_config_path_lds) (temporary proxy_config_path_cds))
    second-Both text = record {
      lead = λ w out h done. (
        (write-keeps proxy_config_path_cds text _ l temporaries-ne).lead w out h.0 done,
        rw (← h.1) ((write-Holds proxy_config_path_cds text).lead w out tt done),
      );
    }

pub rendered_lem :
    (t : Template) (d : ProxyConfigData) (text a : String) (e : Env) (w : World)
    → proxy_config t d ≡ ok text
    → (rendered t d e w).0 ≡ ok a
    → a ≡ text
rendered_lem t d text a e w p h = let same : ok text ≡ ok a = rw p at h in sym (cc)
