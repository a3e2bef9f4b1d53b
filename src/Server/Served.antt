-- ===== src/Server/Served.antt =====
-- A blob that is pushed to the configured server is served by it.
use mathlib.Core.List.{Perm}
use bb_remote_asset.Prelude.{
  String, ◌≡◌, refl, sym, ap, ◌∙◌, subst, Bool, true, none, some, List, [], ◌∷◌,
}
use bb_remote_asset.Prelude.Effect.{ok}
use bb_remote_asset.Storage.Messages.{ProtoDigest, blob, Asset}
use bb_remote_asset.Storage.Libraries.{Libraries, BlobAccess, Authorizer}
use bb_remote_asset.Storage.Reference.{new_asset_reference}
use bb_remote_asset.Storage.Store.{AssetStore, IsAssetMap}
use bb_remote_asset.Storage.Authorizing.{new_authorizing_asset_store}
use bb_remote_asset.Storage.Authorizing.Refinement.{
  LetsThrough, new_authorizing_asset_store-IsAssetMap,
}
use bb_remote_asset.Fetch.Interface.{FetchRequest, Fetcher, ok_status}
use bb_remote_asset.Fetch.Validating.Laws.{ReportsUnsupported, is_acceptable}
use bb_remote_asset.Fetch.Caching.{remove_volatile_qualifiers}
use bb_remote_asset.Fetch.Caching.Kept.{AsksAgain, IsKept}
use bb_remote_asset.Fetch.Metrics.{Metric}
use bb_remote_asset.Push.{
  PushRequest, PushServer, push_blob, get_digest_function, new_asset_push_server,
}
use bb_remote_asset.Push.Stored.{is_among}
use bb_remote_asset.Push.Served.{push_blob_Ensures, kept}
use bb_remote_asset.Push.Metrics.{new_metrics_asset_push_server-IsTransparent}
use bb_remote_asset.Configuration.{Services, new_backend, decorate, new_fetcher_from_configuration}
use bb_remote_asset.Configuration.Laws.{LeavesAlone}
use bb_remote_asset.Configuration.Served.{decorate-serves}
use bb_remote_asset.Configuration.Store.{
  CacheConfiguration, new_base_store, new_asset_store_from_configuration,
}
use bb_remote_asset.Server.{
  ApplicationConfiguration, Environment, allowed_instances, allow_updates, new_store, services,
  new_push_server, new_servers,
}

-- What the start-up has made of a configuration with an asset cache.
pub record IsDeployed (l : Libraries) {W : Type 0} (env : Environment l W)
    (config : ApplicationConfiguration) (cache : CacheConfiguration)
    (base : AssetStore l.Function W)
    (fetch_authorizer push_authorizer : Authorizer l.InstanceName W)
    (content_addressable_storage : BlobAccess l.Digest l.Buffer W) (allowed : List l.InstanceName)
    (fetcher : Fetcher W) : Type 0 where
  pub is_applied : env.apply_configuration ≡ ok tt
  pub has_fetch_authorizer : env.fetch_authorizer ≡ ok fetch_authorizer
  pub has_push_authorizer : env.push_authorizer ≡ ok push_authorizer
  pub has_storage : env.content_addressable_storage ≡ ok content_addressable_storage
  pub has_cache : config.asset_cache ≡ some cache
  pub has_base :
      new_base_store l env.backends content_addressable_storage config.maximum_message_size_bytes
        env.stack cache.backend cache.action_cache_platform
      ≡ ok base
  pub has_allowed : allowed_instances l env config.allow_updates_for_instances ≡ ok allowed
  pub has_fetcher :
      new_backend l
        (services l env
          (some (new_authorizing_asset_store l base fetch_authorizer push_authorizer))
          fetch_authorizer)
        env.clients
        content_addressable_storage
        config.maximum_message_size_bytes
        config.fetcher
      ≡ ok fetcher

module _ (l : Libraries) {W : Type 0} (env : Environment l W) (config : ApplicationConfiguration)
    (cache : CacheConfiguration) (base : AssetStore l.Function W)
    (fetch_authorizer push_authorizer : Authorizer l.InstanceName W)
    (content_addressable_storage : BlobAccess l.Digest l.Buffer W) (allowed : List l.InstanceName)
    (fetcher : Fetcher W)
    (d : IsDeployed l env config cache base fetch_authorizer push_authorizer
      content_addressable_storage allowed fetcher) where
  abbrev pub store : AssetStore l.Function W
  store = new_authorizing_asset_store l base fetch_authorizer push_authorizer

  abbrev pub stack_services : Services l W
  stack_services = services l env (some store) fetch_authorizer

  pub servers-eq :
      new_servers l env config
      ≡ ok (decorate l stack_services fetcher, new_push_server l env (some store) allowed)
  unfolding new_servers new_store new_asset_store_from_configuration new_fetcher_from_configuration
  servers-eq =
      rw (d.is_applied, d.has_fetch_authorizer, d.has_push_authorizer, d.has_storage, d.has_cache)
        (rw (d.has_base, d.has_allowed) (rw d.has_fetcher refl))

  module _ (f : l.Function) (c : IsAssetMap base f)
      (fetches : LetsThrough fetch_authorizer (l.get_instance_name f) c.view)
      (pushes : LetsThrough push_authorizer (l.get_instance_name f) c.view)
      (quiet : LeavesAlone l stack_services fetcher c.view)
      (observe_push_keeps : (m : Metric) (w : W) → c.view (env.observe_push m w) ≡ c.view w)
      (supported : String → Bool)
      (reports : ReportsUnsupported fetcher.check_qualifiers supported) where
    abbrev pub store_map : IsAssetMap store f
    store_map =
        new_authorizing_asset_store-IsAssetMap l base fetch_authorizer push_authorizer f c fetches
          pushes

    module _ (push : PushRequest) (digest : ProtoDigest) (uri : String)
        (same_digest : push.digest ≡ some digest) (is_pushed : is_among uri push.uris ≡ true)
        (never : push.expire_at ≡ none)
        (stable : Perm (remove_volatile_qualifiers push.qualifiers) push.qualifiers)
        (same_function : get_digest_function l push.digest_function push.instance_name push.digest
          ≡ ok f)
        (can_store : (a : Asset) → a.digest ≡ push.digest → c.IsStorable a) where
      abbrev Kept : W → Type 0
      Kept v = IsKept l store env.clock f store_map v uri push.qualifiers (some digest)

      push_blob-Kept :
          (w v : W)
          → push_blob l store env.clock (allow_updates l env allowed) push w ≡ (ok tt, v)
          → Kept v
      unfolding new_authorizing_asset_store-IsAssetMap
      push_blob-Kept w v h =
          subst (λ o. IsKept l store env.clock f store_map v uri push.qualifiers o) same_digest
            (kept l store env.clock (allow_updates l env allowed) f push same_function store_map
              (λ w r. ap (λ m. m r) (quiet.clock w)) can_store blob v uri never stable
              ((push_blob_Ensures l store env.clock (allow_updates l env allowed) f push
                  same_function store_map (λ w r. ap (λ m. m r) (quiet.clock w)) can_store w).at
                tt v h)
              is_pushed)

      -- The metrics leave the store alone.
      new_push_server-Kept :
          (w v : W)
          → (new_push_server l env (some store) allowed).push_blob push w ≡ (ok tt, v)
          → Kept v
      unfolding new_push_server new_asset_push_server new_authorizing_asset_store-IsAssetMap
      new_push_server-Kept w v h =
          let (u, _, same, seen) =
            (new_metrics_asset_push_server-IsTransparent
              (new_asset_push_server l store env.clock (allow_updates l env allowed))
              env.blob_qualifiers env.directory_qualifiers env.clock env.observe_push c.view
              quiet.clock observe_push_keeps push w).0 in
          let x = (push_blob l store env.clock (allow_updates l env allowed) push u).1 in
          let returns : push_blob l store env.clock (allow_updates l env allowed) push u
              ≡ (ok tt, x) =
            λ i. ((sym same ∙ ap (λ r. r.0) h) i, x) in
          let looks : c.view v ≡ c.view x = sym (ap (λ r. c.view r.1) h) ∙ seen in
          let before = push_blob-Kept u x returns in
          record {
            asset = before.asset;
            same_digest = before.same_digest;
            never_expires = before.never_expires;
            is_there =
                ap
                  (λ m.
                    m (new_asset_reference (uri ∷ []) (remove_volatile_qualifiers push.qualifiers)))
                  looks
                ∙ before.is_there;
          }

      -- The server starts with an asset cache, whose store is a map of assets for the digest
      -- function of the push and can store assets of the digest that is pushed. Both authorizers
      -- let the instance name through, and they, the clock, the log and the metrics leave the map
      -- alone. After a PushBlob without an expiry and with no volatile qualifier, a FetchBlob of the
      -- same server for any URI of the push and its qualifiers (up to order and volatile ones),
      -- all of which the backend supports, for content of any age, returns the blob that was
      -- pushed.
      pub pushed_blob_is_served :
          (servers : Fetcher W × PushServer W) (again : FetchRequest) (w v : W)
          → new_servers l env config ≡ ok servers
          → servers.1.push_blob push w ≡ (ok tt, v)
          → AsksAgain l store env.clock f store_map again uri push.qualifiers
          → is_acceptable supported again ≡ true
          → l.new_instance_name again.instance_name ≡ ok (l.get_instance_name f)
          → (servers.0.fetch_blob again v).0
            ≡ ok (record {
              status = some (ok_status "Blob fetched successfully from asset cache");
              uri = uri;
              qualifiers = again.qualifiers;
              blob_digest = some digest;
            })
      unfolding new_authorizing_asset_store-IsAssetMap
      pushed_blob_is_served servers again w v is_started pushed asks acceptable is_name =
          ap (λ (s : Fetcher W × PushServer W). (s.0.fetch_blob again v).0) same
          ∙ decorate-serves l stack_services fetcher store refl f store_map quiet supported reports
              again uri push.qualifiers digest asks acceptable (l.get_instance_name f) v authorized
              is_name (λ i. (fetches.allows v i, authorized))
              (let before = new_push_server-Kept w v (
                  ap (λ (s : Fetcher W × PushServer W). s.1.push_blob push w) (sym same)
                  ∙ pushed) in
                record {
                  asset = before.asset;
                  same_digest = before.same_digest;
                  never_expires = before.never_expires;
                  is_there =
                      ap
                        (λ m. m (
                          new_asset_reference (uri ∷ [])
                            (remove_volatile_qualifiers push.qualifiers)))
                        (fetches.keeps v)
                      ∙ before.is_there;
                })
        where
          same :
              servers
              ≡ (decorate l stack_services fetcher, new_push_server l env (some store) allowed)
          same = cc (sym is_started ∙ servers-eq)

          authorized : W
          authorized = (fetch_authorizer.authorize (l.get_instance_name f) v).1
