-- ===== src/Fetch/RemoteExecution/Executed.antt =====
-- What a fetch by remote execution executes, and when.
use bb_remote_asset.Prelude.{
  String, ◌≡◌, refl, ap, inl, inr, true, false, List, [], ◌∷◌, arith, ◌==◌, eq_refl, Bool-cases,
  any,
}
use bb_remote_asset.Prelude.Effect.{
  ok, Result, Ensures, Ensures-bind, Ensures-step, Ensures-lift, Ensures-pure, Ensures-raise,
}
use bb_remote_asset.Qualifier.Translator.{Command, qualifiers_to_command}
use bb_remote_asset.Storage.Messages.{Action, Message, command, action}
use bb_remote_asset.Storage.Libraries.{Libraries, BlobAccess}
use bb_remote_asset.Storage.Digest.{proto_serialise, Serialises, digest_of, proto_serialise-eq}
use bb_remote_asset.Storage.BlobStore.Refinement.{IsBlobMap}
use bb_remote_asset.Storage.ActionCache.Integrity.{IsPresent, put_loses_nothing}
use bb_remote_asset.Fetch.Interface.{FetchRequest, FetchBlobResponse}
use bb_remote_asset.Fetch.Utils.{get_digest_function}
use bb_remote_asset.Fetch.RemoteExecution.{
  Fetched, first_path, action_for, run, log_failure, try_uris, fetch_common, empty_proto,
  is_directory_path, no_blob, fetch_blob,
}
use bb_remote_asset.Fetch.RemoteExecution.Client.{
  ExecuteResponse, OperationStream, Execution, receive, is_failure, files_of, directories_of,
  file_at, is_empty_digest,
}

module _ (l : Libraries) {W : Type 0} (content_addressable_storage : BlobAccess l.Digest l.Buffer W)
    (execution : Execution W) (f : l.Function) (s : Serialises l f)
    (cas : IsBlobMap content_addressable_storage) where
  abbrev pub key : Message → l.Digest
  key m = digest_of l f s m

  -- The action that runs a command.
  abbrev pub action_of : Command → Action
  action_of c = action_for l content_addressable_storage execution f (key (command c))

  -- The command was executed, when it and its action were in the CAS, with this response.
  pub record IsExecuted (instance_name : String) (c : Command) (response : ExecuteResponse)
      : Type 0 where
    pub before : W
    pub after : W
    pub stream : OperationStream
    pub has_action : IsPresent cas before (key (action (action_of c)))
    pub has_command : IsPresent cas before (key (command c))
    pub is_asked :
        execution.execute
          (record {
            instance_name = instance_name;
            action_digest = l.get_proto (key (action (action_of c)));
          })
          before
        ≡ (ok stream, after)
    pub is_response : receive stream ≡ ok response

  run_Ensures :
      (instance_name : String) (c : Command) (w : W)
      → Ensures w
          (run l content_addressable_storage execution instance_name f c)
          (λ response v. IsExecuted instance_name c response)
  unfolding run
  run_Ensures instance_name c w =
      Ensures-step (proto_serialise l (command c) f) _ (proto_serialise-eq l f s (command c)) (
        Ensures-step (proto_serialise l (action (action_of c)) f) _
          (proto_serialise-eq l f s (action (action_of c)))
          (Ensures-bind _ _ λ _ w₁ p. Ensures-bind _ _ λ _ w₂ q. Ensures-bind _ _ λ stream w₃ r.
            let (has_action, _) = put_loses_nothing cas _ _ w w₁ p in
            let (has_command, kept) = put_loses_nothing cas _ _ w₁ w₂ q in
            record {
              at = λ response v h. record {
                before = w₂;
                after = w₃;
                stream = stream;
                has_action = kept _ has_action;
                has_command = has_command;
                is_asked = r;
                is_response = ap (λ (x : Result ExecuteResponse × W). x.0) h;
              };
            }))

  -- The action result is that of the command for the URI, which did not fail.
  pub record IsFetched (req : FetchRequest) (fetched : Fetched) : Type 0 where
    pub generator : String → Result Command
    pub command_of_uri : Command
    pub response : ExecuteResponse
    pub is_generator : qualifiers_to_command req.qualifiers ≡ ok generator
    pub is_command : generator fetched.uri ≡ ok command_of_uri
    pub is_executed : IsExecuted req.instance_name command_of_uri response
    pub is_result : fetched.action_result ≡ response.result
    pub is_success : is_failure fetched.action_result ≡ false
    pub is_path : first_path command_of_uri.output_paths ≡ ok fetched.output_path

  -- The URI is one of the list.
  abbrev pub IsAmong : List String → String → Type 0
  IsAmong uris uri = any (λ u. u == uri) uris ≡ true

  try_uris_Ensures :
      (req : FetchRequest) (generator : String → Result Command) (uris : List String) (w : W)
      → qualifiers_to_command req.qualifiers ≡ ok generator
      → Ensures w
          (try_uris l content_addressable_storage execution req.instance_name f generator uris)
          (λ fetched v. IsAmong uris fetched.uri × IsFetched req fetched)
  unfolding try_uris
  try_uris_Ensures req generator [] w e = Ensures-raise _
  try_uris_Ensures req generator (uri ∷ uris) w e = Ensures-lift (generator uri) _ λ c is_command.
      Ensures-bind _ _ λ response u p. elim (Bool-cases (is_failure response.result)) [
        | inl failed ↦ rw failed (record {
          at = λ fetched v h.
              let (among, q) =
                (try_uris_Ensures req generator uris
                    (log_failure l content_addressable_storage execution uri u) e).at
                  fetched v h in
              (ground (arith, among), q);
        })
        | inr good ↦ rw good (
            Ensures-lift (first_path c.output_paths) _ λ path is_path.
              Ensures-pure
                (record { action_result = response.result; uri = uri; output_path = path })
                (
                  rw (eq_refl uri) refl,
                  record {
                    generator = generator;
                    command_of_uri = c;
                    response = response;
                    is_generator = e;
                    is_command = is_command;
                    is_executed = (run_Ensures req.instance_name c w).at response u p;
                    is_result = refl;
                    is_success = good;
                    is_path = is_path;
                  },
                ))
      ]

  pub fetch_common_Ensures :
      (req : FetchRequest) (w : W)
      → Ensures w
          (fetch_common l content_addressable_storage execution req f)
          (λ fetched v. IsAmong req.uris fetched.uri × IsFetched req fetched)
  unfolding fetch_common
  fetch_common_Ensures req w =
      Ensures-lift _ _ λ generator e. try_uris_Ensures req generator req.uris w e

module _ (l : Libraries) {W : Type 0} (content_addressable_storage : BlobAccess l.Digest l.Buffer W)
    (execution : Execution W) (s : (f : l.Function) → Serialises l f)
    (cas : IsBlobMap content_addressable_storage) where
  -- The blob of the response is the output of an action for a URI of the request.
  abbrev pub IsFetchedBlob : FetchRequest → FetchBlobResponse → Type 0
  IsFetchedBlob req resp =
      (f : l.Function) × (fetched : Fetched) × (get_digest_function l req.digest_function
          req.instance_name
        ≡ ok f)
      × IsFetched l content_addressable_storage execution f (s f) cas req fetched
      × (any (λ u. u == resp.uri) req.uris ≡ true)
      × (resp.uri ≡ fetched.uri)
      × (resp.blob_digest
          ≡ file_at fetched.output_path (files_of fetched.action_result)
              (empty_proto l content_addressable_storage execution f))
      × (is_empty_digest resp.blob_digest ≡ false)

  no_blob_Ensures :
      (req : FetchRequest) (fetched : Fetched) (w : W) {Q : FetchBlobResponse → W → Type 0}
      → Ensures w (no_blob l content_addressable_storage execution req fetched) Q
  no_blob_Ensures req fetched w =
      elim (Bool-cases (
        is_directory_path l content_addressable_storage execution fetched.output_path
          (directories_of fetched.action_result))) [
            | inl there ↦ record { at = λ resp v h. cc (rw there at h) }
            | inr absent ↦ record { at = λ resp v h. cc (rw absent at h) }
          ]

  -- A FetchBlob by remote execution that succeeds returns a URI of the request and a digest that is
  -- not empty: that of the last output file at the output path of the command for this URI and
  -- the qualifiers. The service executed the action of that command, with the exit code zero, and
  -- both were in the CAS when it was asked to. The CAS is a map of blobs, in which the digests of
  -- messages do not collide.
  pub fetch_blob-IsFetchedBlob :
      (req : FetchRequest) (w v : W) (resp : FetchBlobResponse)
      → fetch_blob l content_addressable_storage execution req w ≡ (ok resp, v)
      → IsFetchedBlob req resp
  unfolding fetch_blob
  fetch_blob-IsFetchedBlob req w v resp h =
      (Ensures-lift {w = w} {Q = λ resp v. IsFetchedBlob req resp}
          (get_digest_function l req.digest_function req.instance_name) _
          λ f is_f. Ensures-bind _ _ λ fetched u p.
            let (among, is_fetched) =
              (fetch_common_Ensures l content_addressable_storage execution f (s f) cas req w).at
                fetched u p in
            elim (Bool-cases (
              is_empty_digest (
                file_at fetched.output_path (files_of fetched.action_result)
                  (empty_proto l content_addressable_storage execution f)))) [
                    | inl empty ↦ rw empty (no_blob_Ensures req fetched u)
                    | inr full ↦
                        rw full
                          (Ensures-pure _ (f, fetched, is_f, is_fetched, among, refl, refl, full))
                  ]).at
        resp v h
