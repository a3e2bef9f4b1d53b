-- ===== src/Server/Allowed.antt =====
-- Who may push to the configured server.
use bb_remote_asset.Prelude.{
  String, ◌≡◌, refl, sym, ◌∙◌, subst, ◌⊎◌, inl, inr, Bool, true, false, not, Option, none, some,
  List, [], ◌∷◌, arith, ◌==◌, eq_refl, if◌then◌else◌, Bool-cases, is_nil, any,
}
use bb_remote_asset.Prelude.Effect.{
  ok, Error, Result, err, panic, Exec, raise, and_then-eq-ok, Ensures, Ensures-lift, Ensures-if,
  Ensures-raise,
}
use bb_remote_asset.Storage.Libraries.{Libraries}
use bb_remote_asset.Storage.Store.{AssetStore}
use bb_remote_asset.Storage.ActionCache.Value.{on_error}
use bb_remote_asset.Fetch.Interface.{Fetcher}
use bb_remote_asset.Push.{
  PushRequest, PushServer, push_blob, push_directory, get_digest_function, new_asset_push_server,
  new_error_push_server,
}
use bb_remote_asset.Push.Metrics.{new_metrics_asset_push_server-IsTransparent}
use bb_remote_asset.Fetch.Utils.{invalid_instance_name}
use bb_remote_asset.Configuration.{new_fetcher_from_configuration}
use bb_remote_asset.Server.{
  wrap, new_store, services, ApplicationConfiguration, Environment, allowed_instances,
  allow_updates, new_push_server, new_servers,
}

on_error-eq-ok :
    {A : Type 0} (change : Error → Error) (r : Result A) {a : A}
    → on_error change r ≡ ok a
    → r ≡ ok a
on_error-eq-ok change (ok a) h = h
on_error-eq-ok change (err x e) h = cc
on_error-eq-ok change panic h = cc

module _ (l : Libraries) {W : Type 0} (env : Environment l W) where
  -- An instance name of the configuration that stands for `i`.
  abbrev pub IsListed : List String → l.InstanceName → Type 0
  IsListed names i =
      (name : String) × (j : l.InstanceName) × (any (λ n. n == name) names ≡ true)
      × (l.new_instance_name name ≡ ok j)
      × (env.same_instance i j ≡ true)

  allowed_instances-IsListed :
      (names : List String) (allowed : List l.InstanceName) (i : l.InstanceName)
      → allowed_instances l env names ≡ ok allowed
      → allow_updates l env allowed i ≡ true
      → IsListed names i
  unfolding allowed_instances
  allowed_instances-IsListed [] [] i h p = cc
  allowed_instances-IsListed [] (j ∷ js) i h p = cc
  allowed_instances-IsListed (name ∷ names) allowed i h p =
      let (j, is_name, rest) =
        and_then-eq-ok (on_error (invalid_instance_name l name) (l.new_instance_name name)) _ h in
      let (js, others, both) = and_then-eq-ok (allowed_instances l env names) _ rest in
      let e : j ∷ js ≡ allowed = cc both in
      elim (Bool-cases (env.same_instance i j)) [
        | inl here ↦ (
          name,
          j,
          rw (eq_refl name) refl,
          on_error-eq-ok (invalid_instance_name l name) (l.new_instance_name name) is_name,
          here,
        )
        | inr other ↦
            let later : allow_updates l env js i ≡ true =
              rw other at (subst (λ is. allow_updates l env is i ≡ true) (sym e) p) in
            let (n, k, among, q, r) = allowed_instances-IsListed names js i others later in
            (n, k, ground (arith, among), q, r)
      ]

  -- The digest function of the request is one for an instance that accepts updates.
  abbrev Accepts : List l.InstanceName → PushRequest → Type 0
  Accepts allowed req =
      (f : l.Function) × (get_digest_function l req.digest_function req.instance_name req.digest
        ≡ ok f)
      × (allow_updates l env allowed (l.get_instance_name f) ≡ true)

  module _ (store : AssetStore l.Function W) (allowed : List l.InstanceName)
      (req : PushRequest) where
    guard_Ensures :
        {Q : Unit {0} → W → Type 0} (b : Bool) (e : Error) (m : Exec W (Unit {0})) (w : W)
        → (b ≡ true → Ensures w m Q)
        → Ensures w (if not b then raise e else m) Q
    guard_Ensures true e m w k = k refl
    guard_Ensures false e m w k = Ensures-raise e

    push_blob-Accepts :
        (w : W)
        → Ensures w
            (push_blob l store env.clock (allow_updates l env allowed) req)
            (λ _ v. Accepts allowed req)
    unfolding push_blob
    push_blob-Accepts w =
        Ensures-if (is_nil req.uris) _ _ (λ _. Ensures-raise _)
          (Ensures-lift _ _ λ f is_f.
            guard_Ensures (allow_updates l env allowed (l.get_instance_name f)) _ _ w
              λ yes_it_is. record { at = λ _ v h. (f, is_f, yes_it_is) })

    push_directory-Accepts :
        (w : W)
        → Ensures w
            (push_directory l store env.clock (allow_updates l env allowed) req)
            (λ _ v. Accepts allowed req)
    unfolding push_directory
    push_directory-Accepts w =
        Ensures-if (is_nil req.uris) _ _ (λ _. Ensures-raise _)
          (Ensures-lift _ _ λ f is_f.
            guard_Ensures (allow_updates l env allowed (l.get_instance_name f)) _ _ w
              λ yes_it_is. record { at = λ _ v h. (f, is_f, yes_it_is) })

  -- A push of the server, of either kind, that returns.
  abbrev pub Returns : PushServer W → PushRequest → Type 0
  Returns server req =
      (w : W) × (((server.push_blob req w).0 ≡ ok tt) ⊎ ((server.push_directory req w).0 ≡ ok tt))

  new_push_server-Accepts :
      (o : Option (AssetStore l.Function W)) (allowed : List l.InstanceName) (req : PushRequest)
      → Returns (new_push_server l env o allowed) req
      → Accepts allowed req
  unfolding new_push_server new_error_push_server new_asset_push_server
  new_push_server-Accepts none allowed req (w, inl h) = cc
  new_push_server-Accepts none allowed req (w, inr h) = cc
  new_push_server-Accepts (some store) allowed req (w, returned) =
      let server = new_asset_push_server l store env.clock (allow_updates l env allowed) in
      let ((v, _, same, _), (x, _, same', _)) =
        new_metrics_asset_push_server-IsTransparent server env.blob_qualifiers
          env.directory_qualifiers env.clock env.observe_push (λ w. tt) (λ w. refl) (λ m w. refl)
          req w in
      elim returned [
        | inl h ↦
            (push_blob-Accepts store allowed req v).at tt (server.push_blob req v).1
              (λ i. ((sym same ∙ h) i, (server.push_blob req v).1))
        | inr h ↦
            (push_directory-Accepts store allowed req x).at tt (server.push_directory req x).1
              (λ i. ((sym same' ∙ h) i, (server.push_directory req x).1))
      ]

  -- The servers are made with the instance names of the configuration.
  push_server_of :
      (config : ApplicationConfiguration) (servers : Fetcher W × PushServer W)
      → new_servers l env config ≡ ok servers
      → (o : Option (AssetStore l.Function W)) × (allowed : List l.InstanceName)
        × (allowed_instances l env config.allow_updates_for_instances ≡ ok allowed)
        × (servers.1 ≡ new_push_server l env o allowed)
  unfolding new_servers
  push_server_of config servers h₀ =
      let (_, _, h₁) =
        and_then-eq-ok
          (wrap l env "Failed to apply global configuration options" env.apply_configuration) _
          h₀ in
      let (fa, _, h₂) =
        and_then-eq-ok
          (wrap l env "Failed to create Fetch Authorizer from Configuration" env.fetch_authorizer) _
          h₁ in
      let (pa, _, h₃) =
        and_then-eq-ok
          (wrap l env "Failed to create Push Authorizer from Configuration" env.push_authorizer) _
          h₂ in
      let (cas, _, h₄) =
        and_then-eq-ok
          (wrap l env "Failed to create CAS blob access" env.content_addressable_storage) _ h₃ in
      let (o, _, h₅) = and_then-eq-ok (new_store l env config config.asset_cache cas fa pa) _ h₄ in
      let (allowed, e, h₆) =
        and_then-eq-ok (allowed_instances l env config.allow_updates_for_instances) _ h₅ in
      let (_, _, h₇) =
        and_then-eq-ok
          (wrap l env "Failed to initialize fetch server from configuration" (
            new_fetcher_from_configuration l (services l env o fa) env.clients cas
              config.maximum_message_size_bytes config.fetcher))
          _ h₆ in
      (o, allowed, e, cc h₇)

  -- A push that the configured server lets succeed, of a blob or of a directory, has a valid digest
  -- function, whose instance name is that of one for which the configuration allows updates.
  pub returned_push-IsListed :
      (config : ApplicationConfiguration) (servers : Fetcher W × PushServer W) (req : PushRequest)
      → new_servers l env config ≡ ok servers
      → Returns servers.1 req
      → (f : l.Function) × (get_digest_function l req.digest_function req.instance_name req.digest
          ≡ ok f)
        × IsListed config.allow_updates_for_instances (l.get_instance_name f)
  returned_push-IsListed config servers req started returned =
      let (o, allowed, is_allowed, is_server) = push_server_of config servers started in
      let (f, is_f, accepts) =
        new_push_server-Accepts o allowed req (subst (λ s. Returns s req) is_server returned) in
      (
        f,
        is_f,
        allowed_instances-IsListed config.allow_updates_for_instances allowed
            (l.get_instance_name f) is_allowed accepts,
      )
