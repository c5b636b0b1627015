-- ===== src/Expose/Ingress/Transform/Settled.antt =====
-- pkg/deploy/spindeploy/expose_ingress: what the detector says of a SpinnakerService that the transformer
-- has changed.
use mathlib.Core.Path.{subst}
use spinnaker_operator.Base.{
  sym, ap, String, true, false, ◌≡◌, refl, inl, inr, ◌∙◌, Option, none, some, [], ◌∷◌, ◌||◌, ◌=ₛ◌,
  =ₛ_refl, arith, Bool-cases,
}
use spinnaker_operator.Base.Dict.{lookup, insert, lookup-insert_self}
use spinnaker_operator.Base.Text.{is_empty, split}
use spinnaker_operator.Base.Number.{ℤ}
use spinnaker_operator.Base.Io.{go_on, ◌>>=◌, go_on-eq_ok}
use spinnaker_operator.Base.Result.{Result, ok, err, panic}
use spinnaker_operator.Inspect.Value.{Value, string, map, Error, invalid_interface}
use spinnaker_operator.Inspect.Setter.{set_object_prop}
use spinnaker_operator.Inspect.Getter.{get_object_prop}
use spinnaker_operator.Secrets.Context.{SecretContext}
use spinnaker_operator.Secrets.Decode.{Engines}
use spinnaker_operator.Config.{
  as_config, SpinnakerConfig, get_hal_config_prop_string, set_hal_config_prop,
}
use spinnaker_operator.Api.Types.{ExposeConfig, SpinnakerService}
use spinnaker_operator.Expose.Port.{Parse, gate_override_base_url_prop, deck_override_base_url_prop}
use spinnaker_operator.Expose.Ingress.{
  IngressApi, IngressExplorer, IngressUrl, new_explorer, load_ingresses, get_ingress_url,
  url_to_string, guess_gate_port, gate_default_port, deck_default_port, applies, differs,
  compare_gate, is_spinnaker_up_to_date,
}
use spinnaker_operator.Expose.Ingress.Transform.{
  State, IngressError, bad_gate_url, bad_deck_url, get_url_from_config, guess, find_gate, find_deck,
  with_config, set_path, with_api_url, with_ui_url, changed, set_gate, set_deck,
  find_url_in_ingress, set_gate_path_in_config, transform_gate, transform_deck, transform_config,
}
use spinnaker_operator.Expose.Ingress.Transform.Unset.{
  IsUnset, unset-ends, with_gate_url, set_gate_url, deck-still_unset, object-missing,
  guess-no_profile, gate_profile, set_each-gate, guess-gate_profile, guess-same_profiles,
}

module _ {E : Type 0} (eng : Engines E) where
  -- The state after the ingresses were loaded.
  abbrev loaded_state : State → IngressExplorer → State
  loaded_state t ing = record t { ing = some ing }

  -- What the detector and the part for Deck need of a state, but for the URLs of the status.
  record IsReady (ing : IngressExplorer) (ns : String) (t : State) : Type 0 where
    ing_there : t.ing ≡ some ing
    same_namespace : t.svc.namespace ≡ ns
    ingress : applies t.svc ≡ true
    port : (ctx : Option SecretContext) → guess_gate_port eng ctx t.svc ≡ (ctx, gate_default_port)
    deck_unset :
        get_object_prop (map t.svc.spinnaker_config.config) deck_override_base_url_prop
        ≡ err (invalid_interface deck_override_base_url_prop)

  module _ {F : Type 0} (parse : Parse) (api : IngressApi F) where
    url-unset :
        (bad : String → IngressError F) (prop : String) (t : State) {e : Error}
        → get_object_prop (map t.svc.spinnaker_config.config) prop ≡ err e
        → get_url_from_config eng parse api bad prop t ≡ (t, ok false)
    unfolding get_url_from_config get_hal_config_prop_string
    url-unset bad prop t h =
        rw (object-missing eng t.ctx (map t.svc.spinnaker_config.config) prop h) refl

    find-loaded :
        (ing : IngressExplorer) (name : String) (n : ℤ) (t : State)
        → t.ing ≡ some ing
        → find_url_in_ingress eng parse api name n t ≡ (t, ok (get_ingress_url ing name n))
    unfolding find_url_in_ingress
    find-loaded ing name n t h = ground arith

    find-load :
        (ing : IngressExplorer) (name : String) (n : ℤ) (t : State)
        → t.ing ≡ none
        → load_ingresses api new_explorer t.svc.namespace ≡ (ing, none)
        → find_url_in_ingress eng parse api name n t
          ≡ (loaded_state t ing, ok (get_ingress_url ing name n))
    unfolding find_url_in_ingress
    find-load ing name n t h loads = ground arith

    guess-ok :
        (t : State) (p : ℤ)
        → guess_gate_port eng t.ctx t.svc ≡ (t.ctx, p)
        → guess eng parse api t ≡ (t, ok p)
    guess-ok t p h = ap (λ (g : Option SecretContext × ℤ). (record t { ctx = g.0 }, ok g.1)) h

    find_gate-false :
        (t : State) (p : ℤ)
        → guess_gate_port eng t.ctx t.svc ≡ (t.ctx, p)
        → find_gate eng parse api false t
          ≡ go_on (set_gate eng parse api) (find_url_in_ingress eng parse api "spin-gate" p t)
    find_gate-false t p h =
        ap
          (go_on
            (λ port. find_url_in_ingress eng parse api "spin-gate" port >>= set_gate eng parse api))
          (guess-ok t p h)

    -- The part for Gate up to what it writes.
    gate-found :
        (ing : IngressExplorer) (t : State)
        → t.ing ≡ none
        → load_ingresses api new_explorer t.svc.namespace ≡ (ing, none)
        → IsUnset t.svc.spinnaker_config.config
        → lookup "gate" t.svc.spinnaker_config.profiles ≡ none
        → transform_gate eng parse api t
          ≡ set_gate eng parse api
              (get_ingress_url ing "spin-gate" gate_default_port)
              (loaded_state t ing)
    unfolding transform_gate split is_empty
    gate-found ing t fresh loads unset no_profile =
        ap (go_on (find_gate eng parse api)) (
          url-unset bad_gate_url gate_override_base_url_prop t (
            unset-ends t.svc.spinnaker_config.config gate_override_base_url_prop refl
              ("apiSecurity" ∷ "overrideBaseUrl" ∷ []) refl refl unset.no_security
              unset.no_gate_key))
        ∙ find_gate-false t gate_default_port (guess-no_profile eng t.ctx t.svc no_profile)
        ∙ ap (go_on (set_gate eng parse api))
            (find-load ing "spin-gate" gate_default_port t fresh loads)

    done-loaded :
        (ing : IngressExplorer) (t : State)
        → applies t.svc ≡ true
        → IsUnset t.svc.spinnaker_config.config
        → lookup "gate" t.svc.spinnaker_config.profiles ≡ none
        → IsReady ing t.svc.namespace (loaded_state t ing)
    unfolding split is_empty
    done-loaded ing t here unset no_profile = record {
      ing_there = refl;
      same_namespace = refl;
      ingress = here;
      port = λ ctx. guess-no_profile eng ctx t.svc no_profile;
      deck_unset =
          unset-ends t.svc.spinnaker_config.config deck_override_base_url_prop refl
            ("uiSecurity" ∷ "overrideBaseUrl" ∷ []) refl refl unset.no_security unset.no_deck_key;
    }

    -- Gate's URL is written, and so is the path where there is one.
    found_url : (u : IngressUrl) → differs eng (url_to_string u) (some u) ≡ false
    found_url u = rw (=ₛ_refl (url_to_string u)) refl

    abbrev gate_url_set : State → IngressUrl → State
    gate_url_set t u = with_config t (record t.svc.spinnaker_config {
      config = with_gate_url (url_to_string u) t.svc.spinnaker_config.config;
    })

    gate_path_set :
        (path : String) (cfg : SpinnakerConfig)
        → lookup "gate" cfg.profiles ≡ none
        → set_gate_path_in_config path cfg
          ≡ (record cfg { profiles = insert "gate" (gate_profile path) cfg.profiles }, ok tt)
    unfolding set_gate_path_in_config
    gate_path_set path cfg h = rw (h, set_each-gate path) refl

    -- The path is set or not; in both cases the guess of Gate's port stays what it was.
    set_path-done :
        (ing : IngressExplorer) (ns path : String) (t : State)
        → IsReady ing ns t
        → lookup "gate" t.svc.spinnaker_config.profiles ≡ none
        → (t' : State) × (set_path eng parse api path t ≡ (t', ok tt)) × IsReady ing ns t'
    set_path-done ing ns path t gate no_profile = elim (Bool-cases (is_empty path || path =ₛ "/")) [
      | inl plain ↦ (t, rw plain refl, gate)
      | inr more ↦ (
        with_config (record t { gate_path_override = path })
            (record t.svc.spinnaker_config {
              profiles = insert "gate" (gate_profile path) t.svc.spinnaker_config.profiles;
            }),
        rw (more, gate_path_set path t.svc.spinnaker_config no_profile) refl,
        record {
          ing_there = gate.ing_there;
          same_namespace = gate.same_namespace;
          ingress = gate.ingress;
          port = λ ctx.
              guess-gate_profile eng ctx _ path
                (lookup-insert_self "gate" (gate_profile path) t.svc.spinnaker_config.profiles);
          deck_unset = gate.deck_unset;
        },
      )
    ]

    abbrev Agrees : String → Option IngressUrl → Type 0
    Agrees status_url o = differs eng status_url o ≡ false

    IsReady-gate_url_set :
        (ing : IngressExplorer) (ns : String) (t : State) (u : IngressUrl)
        → IsReady ing ns t
        → IsUnset t.svc.spinnaker_config.config
        → IsReady ing ns (gate_url_set t u)
    IsReady-gate_url_set ing ns t u r unset = record {
      ing_there = r.ing_there;
      same_namespace = r.same_namespace;
      ingress = r.ingress;
      port = λ ctx. guess-same_profiles eng ctx t.svc (gate_url_set t u).svc refl (r.port ctx);
      deck_unset = deck-still_unset (url_to_string u) t.svc.spinnaker_config.config unset;
    }

    set_gate-done :
        (ing : IngressExplorer) (ns : String) (o : Option IngressUrl) (t : State)
        → IsReady ing ns t
        → IsUnset t.svc.spinnaker_config.config
        → lookup "gate" t.svc.spinnaker_config.profiles ≡ none
        → (t' : State) × (set_gate eng parse api o t ≡ (t', ok tt))
          × IsReady ing ns t'
          × Agrees t'.svc.status.api_url o
    set_gate-done ing ns none t r unset no_profile = (t, refl, r, refl)
    set_gate-done ing ns (some u) t r unset no_profile =
        let (t', path, r') =
          set_path-done ing ns u.path (gate_url_set t u) (IsReady-gate_url_set ing ns t u r unset)
            no_profile in
        (
          with_api_url (url_to_string u) t',
          rw (set_gate_url (url_to_string u) t.svc.spinnaker_config unset, path) refl,
          record {
            ing_there = r'.ing_there;
            same_namespace = r'.same_namespace;
            ingress = r'.ingress;
            port = λ ctx.
                guess-same_profiles eng ctx t'.svc (with_api_url (url_to_string u) t').svc refl
                  (r'.port ctx);
            deck_unset = r'.deck_unset;
          },
          found_url u,
        )

    as_config-profiles :
        (cfg : SpinnakerConfig) (v : Value) → (as_config cfg v).profiles ≡ cfg.profiles
    as_config-profiles cfg v = ground arith

    set_hal_config_prop-profiles :
        (cfg : SpinnakerConfig) (prop : String) (v : Value)
        → (set_hal_config_prop cfg prop v).0.profiles ≡ cfg.profiles
    unfolding set_hal_config_prop
    set_hal_config_prop-profiles cfg prop v =
        as_config-profiles cfg (set_object_prop cfg.config prop v).0

    -- What the detector needs: the URLs that it computes are those of the status.
    up_to_date :
        (ing : IngressExplorer) (svc : SpinnakerService) (ctx : Option SecretContext)
        → applies svc ≡ true
        → load_ingresses api new_explorer svc.namespace ≡ (ing, none)
        → guess_gate_port eng ctx svc ≡ (ctx, gate_default_port)
        → Agrees svc.status.ui_url (get_ingress_url ing "spin-deck" deck_default_port)
        → Agrees svc.status.api_url (get_ingress_url ing "spin-gate" gate_default_port)
        → is_spinnaker_up_to_date eng api ctx svc ≡ (ctx, inr true)
    unfolding is_spinnaker_up_to_date
    up_to_date ing svc ctx here loads port ui api_same =
        rw (here, loads, ui) (ap (compare_gate eng {F = F} ing svc) port ∙ rw api_same refl)

    changed-ok :
        (t : State) (r : SpinnakerConfig × Result Error (Unit {0})) {t' : State}
        → changed {F = F} t r ≡ (t', ok tt)
        → t' ≡ with_config t r.0
    changed-ok t (cfg, ok u) h =
        sym (ap (λ (p : State × Result (IngressError F) (Unit {0})). p.0) h)
    changed-ok t (cfg, err e) h = ground arith
    changed-ok t (cfg, panic) h = ground arith

    -- What the part for Deck keeps, and what it writes.
    abbrev DeckDone : Option IngressUrl → State → State → Type 0
    DeckDone o t t' =
        (t'.svc.namespace ≡ t.svc.namespace)
        × (t'.svc.expose ≡ t.svc.expose)
        × (t'.svc.spinnaker_config.profiles ≡ t.svc.spinnaker_config.profiles)
        × (t'.svc.status.api_url ≡ t.svc.status.api_url)
        × Agrees t'.svc.status.ui_url o

    set_deck-done :
        (o : Option IngressUrl) (t : State) {t' : State}
        → set_deck eng parse api o t ≡ (t', ok tt)
        → DeckDone o t t'
    set_deck-done none t h =
        subst (DeckDone none t) (ap (λ (p : State × Result (IngressError F) (Unit {0})). p.0) h)
          (refl, refl, refl, refl, refl)
    set_deck-done (some u) t h =
        let written =
          set_hal_config_prop t.svc.spinnaker_config deck_override_base_url_prop
            (string (url_to_string u)) in
        let (v, t1, first, last) =
          go_on-eq_ok (λ done. λ t. (with_ui_url (url_to_string u) t, ok tt)) (changed t written)
            h in
        subst (DeckDone (some u) t)
          (ap (with_ui_url (url_to_string u)) (sym (changed-ok t written first))
            ∙ ap (λ (p : State × Result (IngressError F) (Unit {0})). p.0) last)
          (
            refl,
            refl,
            set_hal_config_prop-profiles t.svc.spinnaker_config deck_override_base_url_prop
                (string (url_to_string u)),
            refl,
            found_url u,
          )

    deck-found :
        (ing : IngressExplorer) (ns : String) (t : State)
        → IsReady ing ns t
        → transform_deck eng parse api t
          ≡ set_deck eng parse api (get_ingress_url ing "spin-deck" deck_default_port) t
    unfolding transform_deck
    deck-found ing ns t r =
        ap (go_on (find_deck eng parse api))
          (url-unset bad_deck_url deck_override_base_url_prop t r.deck_unset)
        ∙ ap (go_on (set_deck eng parse api))
            (find-loaded ing "spin-deck" deck_default_port t r.ing_there)

    config-applies :
        (t : State)
        → applies t.svc ≡ true
        → transform_config eng parse api t
          ≡ go_on (λ u. transform_deck eng parse api) (transform_gate eng parse api t)
    unfolding transform_config
    config-applies t here = rw here refl

    -- A SpinnakerService that is exposed by ingresses, with nothing under `security` in its main config
    -- and no profile of Gate: once a fresh transformer has changed it without an error, the detector,
    -- asked with the same ingresses, finds it up to date, whether or not it found an URL for Gate, with
    -- or without a path, or for Deck.
    pub transform_config_settled :
        (t : State) (ing : IngressExplorer) (ctx : Option SecretContext) {t' : State}
        → applies t.svc ≡ true
        → t.ing ≡ none
        → load_ingresses api new_explorer t.svc.namespace ≡ (ing, none)
        → IsUnset t.svc.spinnaker_config.config
        → lookup "gate" t.svc.spinnaker_config.profiles ≡ none
        → transform_config eng parse api t ≡ (t', ok tt)
        → is_spinnaker_up_to_date eng api ctx t'.svc ≡ (ctx, inr true)
    transform_config_settled t ing ctx {t'} here fresh loads unset no_profile h =
        let (t1, gate, r, api_same) =
          set_gate-done ing t.svc.namespace (get_ingress_url ing "spin-gate" gate_default_port)
            (loaded_state t ing) (done-loaded ing t here unset no_profile) unset no_profile in
        let path =
          ap (go_on (λ u. transform_deck eng parse api))
            (gate-found ing t fresh loads unset no_profile ∙ gate)
          ∙ deck-found ing t.svc.namespace t1 r in
        let (ns, expose, profiles, same_api, ui) =
          set_deck-done (get_ingress_url ing "spin-deck" deck_default_port) t1 {t' = t'}
            (sym path ∙ sym (config-applies t here) ∙ h) in
        up_to_date ing t'.svc ctx
          (ap (λ (e : ExposeConfig). e.type =ₛ "ingress") expose ∙ r.ingress)
          (ap (load_ingresses api new_explorer) (ns ∙ r.same_namespace) ∙ loads)
          (guess-same_profiles eng ctx t1.svc t'.svc profiles (r.port ctx)) ui
          (ap (λ (u : String). differs eng u (get_ingress_url ing "spin-gate" gate_default_port))
              same_api
            ∙ api_same)
