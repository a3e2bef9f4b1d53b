-- ===== src/Fetch/RemoteExecution/Directories.antt =====
-- What a fetch of a directory by remote execution leaves in the CAS.
use bb_remote_asset.Prelude.{
  ℕ, ◌≡◌, refl, ap, inl, inr, true, Option, some, List, [], ◌∷◌, ◌==◌, Bool-cases, any, All,
}
use bb_remote_asset.Prelude.Effect.{
  ok, Result, Ensures, Ensures-bind, Ensures-step, Ensures-lift, Ensures-pure,
}
use bb_remote_asset.Storage.Messages.{ProtoDigest, directory, Directory, Tree}
use bb_remote_asset.Storage.Libraries.{Libraries, BlobAccess}
use bb_remote_asset.Storage.Digest.{Serialises, digest_of, proto_serialise-eq, proto_serialise}
use bb_remote_asset.Storage.BlobStore.Refinement.{IsBlobMap}
use bb_remote_asset.Storage.ActionCache.Integrity.{IsPresent, Keeps, put_loses_nothing}
use bb_remote_asset.Fetch.Interface.{FetchRequest, FetchDirectoryResponse}
use bb_remote_asset.Fetch.Utils.{get_digest_function}
use bb_remote_asset.Fetch.RemoteExecution.{
  Fetched, empty_proto, is_file_path, no_directory, root_of, put_directory, put_children, get_tree,
  put_tree, blob_request, fetch_directory,
}
use bb_remote_asset.Fetch.RemoteExecution.Client.{
  Execution, files_of, directories_of, tree_at, is_empty_digest,
}
use bb_remote_asset.Fetch.RemoteExecution.Executed.{IsFetched, fetch_common_Ensures}

module _ (l : Libraries) {W : Type 0} (content_addressable_storage : BlobAccess l.Digest l.Buffer W)
    (execution : Execution W) (f : l.Function) (s : Serialises l f)
    (cas : IsBlobMap content_addressable_storage) where
  -- The directory is in the CAS.
  abbrev pub IsUploaded : W → Directory → Type 0
  IsUploaded w d = IsPresent cas w (digest_of l f s (directory d))

  put_directory_Ensures :
      (d : Directory) (w : W)
      → Ensures w
          (put_directory l content_addressable_storage execution f d)
          (λ digest v. (digest ≡ digest_of l f s (directory d)) × IsUploaded v d × Keeps cas w v)
  unfolding put_directory
  put_directory_Ensures d w =
      Ensures-step (proto_serialise l (directory d) f) _ (proto_serialise-eq l f s (directory d)) (
        Ensures-bind _ _ λ _ u p.
          let (there, kept) = put_loses_nothing cas _ _ w u p in
          Ensures-pure (digest_of l f s (directory d)) (refl, there, kept))

  put_children_Ensures :
      (ds : List Directory) (w : W)
      → Ensures w
          (put_children l content_addressable_storage execution f ds)
          (λ _ v. All (IsUploaded v) ds × Keeps cas w v)
  unfolding put_children
  put_children_Ensures [] w = Ensures-pure tt (tt, λ d p. p)
  put_children_Ensures (d ∷ ds) w = Ensures-bind _ _ λ digest u p. record {
    at = λ _ v h.
        let (_, there, before) = (put_directory_Ensures d w).at digest u p in
        let (rest, kept) = (put_children_Ensures ds u).at tt v h in
        ((kept _ there, rest), λ c q. kept c (before c q));
  }

  module _ (maximum_message_size_bytes : ℕ) where
    put_tree_Ensures :
        (t : Tree) (w : W)
        → Ensures w
            (put_tree l content_addressable_storage execution maximum_message_size_bytes f t)
            (λ digest v.
              (digest
                ≡ digest_of l f s
                    (directory (root_of l content_addressable_storage execution t.root)))
              × All
                  (IsUploaded v)
                  (root_of l content_addressable_storage execution t.root ∷ t.children))
    unfolding put_tree
    put_tree_Ensures t w = Ensures-bind _ _ λ digest u p. Ensures-bind _ _ λ _ v q.
        let (right, there, _) = (put_directory_Ensures _ w).at digest u p in
        let (rest, kept) = (put_children_Ensures t.children u).at tt v q in
        Ensures-pure digest (right, (kept _ there, rest))

    -- The tree was read from the CAS under this digest.
    pub record IsRead (digest : Option ProtoDigest) (t : Tree) : Type 0 where
      pub tree_digest : l.Digest
      pub before : W
      pub buffer : l.Buffer
      pub is_digest : l.new_digest_from_proto f digest ≡ ok tree_digest
      pub is_got : (content_addressable_storage.get tree_digest before).0 ≡ ok buffer
      pub is_tree : l.to_tree buffer maximum_message_size_bytes ≡ ok t

    get_tree_Ensures :
        (digest : Option ProtoDigest) (w : W)
        → Ensures w
            (get_tree l content_addressable_storage execution maximum_message_size_bytes f digest)
            (λ t v. IsRead digest t)
    unfolding get_tree
    get_tree_Ensures digest w = Ensures-lift _ _ λ tree_digest is_digest. Ensures-bind _ _ λ b u p.
        record {
          at = λ t v h. record {
            tree_digest = tree_digest;
            before = w;
            buffer = b;
            is_digest = is_digest;
            is_got = ap (λ (r : Result l.Buffer × W). r.0) p;
            is_tree = ap (λ (r : Result Tree × W). r.0) h;
          };
        }

    -- The directory of the response is the root of the tree that an action for a URI of the
    -- request has as its output, and the directories of the tree are in the CAS.
    pub record IsFetchedDirectory (req : FetchRequest) (resp : FetchDirectoryResponse) (v : W)
        : Type 0 where
      pub fetched : Fetched
      pub is_fetched :
          IsFetched l content_addressable_storage execution f s cas
            (blob_request l content_addressable_storage execution maximum_message_size_bytes req)
            fetched
      pub is_among : any (λ u. u == resp.uri) req.uris ≡ true
      pub is_uri : resp.uri ≡ fetched.uri
      pub tree : Tree
      pub is_read :
          IsRead
            (tree_at fetched.output_path
              (directories_of fetched.action_result)
              (empty_proto l content_addressable_storage execution f))
            tree
      pub is_root :
          resp.root_directory_digest
          ≡ some (
              l.get_proto (
                digest_of l f s
                  (directory (root_of l content_addressable_storage execution tree.root))))
      pub is_complete :
          All
            (IsUploaded v)
            (root_of l content_addressable_storage execution tree.root ∷ tree.children)

    no_directory_Ensures :
        (req : FetchRequest) (fetched : Fetched) (w : W) {Q : FetchDirectoryResponse → W → Type 0}
        → Ensures w (no_directory l content_addressable_storage execution req fetched) Q
    no_directory_Ensures req fetched w =
        elim (Bool-cases (
          is_file_path l content_addressable_storage execution fetched.output_path
            (files_of fetched.action_result))) [
              | inl there ↦ record { at = λ resp v h. cc (rw there at h) }
              | inr absent ↦ record { at = λ resp v h. cc (rw absent at h) }
            ]

    -- A FetchDirectory by remote execution that succeeds returns a URI of the request and the root
    -- of a tree that was read from the CAS under the digest that the executed action has for its
    -- output path. The root and all other directories of the tree are in the CAS then. The CAS is a map of
    -- blobs, in which the digests of messages do not collide, and `f` is the digest function of the
    -- request.
    pub fetch_directory-IsFetchedDirectory :
        (req : FetchRequest) (w v : W) (resp : FetchDirectoryResponse)
        → get_digest_function l req.digest_function req.instance_name ≡ ok f
        → fetch_directory l content_addressable_storage execution maximum_message_size_bytes req w
          ≡ (ok resp, v)
        → IsFetchedDirectory req resp v
    unfolding fetch_directory
    fetch_directory-IsFetchedDirectory req w v resp is_f h =
        (Ensures-step {w = w} {Q = λ resp v. IsFetchedDirectory req resp v}
            (get_digest_function l req.digest_function req.instance_name) _ is_f
            (Ensures-bind _ _ λ fetched u p.
              let (among, is_fetched) =
                (fetch_common_Ensures l content_addressable_storage execution f s cas
                    (blob_request l content_addressable_storage execution maximum_message_size_bytes
                      req)
                    w).at
                  fetched u p in
              elim (Bool-cases (
                is_empty_digest (
                  tree_at fetched.output_path (directories_of fetched.action_result)
                    (empty_proto l content_addressable_storage execution f)))) [
                      | inl empty ↦ rw empty (no_directory_Ensures req fetched u)
                      | inr full ↦ rw full (
                          Ensures-bind _ _ λ t x q. Ensures-bind _ _ λ root_digest y r.
                            let (right, complete) = (put_tree_Ensures t x).at root_digest y r in
                            Ensures-pure _ (record {
                              fetched = fetched;
                              is_fetched = is_fetched;
                              is_among = among;
                              is_uri = refl;
                              tree = t;
                              is_read = (get_tree_Ensures _ u).at t x q;
                              is_root = ap (λ (d : l.Digest). some (l.get_proto d)) right;
                              is_complete = complete;
                            }))
                    ])).at
          resp v h
