-- ===== src/Fetch/RemoteExecution/Answered.antt =====
-- A fetch by remote execution goes on to the first URI whose action succeeds.
use bb_remote_asset.Prelude.{
  String, ◌≡◌, refl, ap, ◌∙◌, true, false, Option, some, List, [], ◌∷◌, ◌++◌, All,
}
use bb_remote_asset.Prelude.Effect.{ok, Result, lift, continue, ◌>>=◌, bind_step}
use bb_remote_asset.Qualifier.Translator.{Command, qualifiers_to_command}
use bb_remote_asset.Storage.Messages.{ProtoDigest, Action, command, action}
use bb_remote_asset.Storage.Libraries.{Libraries, BlobAccess}
use bb_remote_asset.Storage.Digest.{proto_serialise, Serialises, digest_of, proto_serialise-eq}
use bb_remote_asset.Fetch.Interface.{FetchRequest, ok_status}
use bb_remote_asset.Fetch.Utils.{get_digest_function}
use bb_remote_asset.Fetch.RemoteExecution.{
  first_path, action_for, run, log_failure, try_uris, fetch_common, empty_proto, fetch_blob,
}
use bb_remote_asset.Fetch.RemoteExecution.Client.{
  ExecuteResponse, OperationStream, Execution, receive, is_failure, files_of, file_at,
  is_empty_digest,
}

module _ (l : Libraries) {W : Type 0} (content_addressable_storage : BlobAccess l.Digest l.Buffer W)
    (execution : Execution W) (f : l.Function) (s : Serialises l f)
    (puts_return : (d : l.Digest) (x : l.Buffer) (w : W)
      → (content_addressable_storage.put d x w).0 ≡ ok tt)
    (req : FetchRequest) (generator : String → Result Command) where
  abbrev action_of : Command → Action
  action_of c = action_for l content_addressable_storage execution f (digest_of l f s (command c))

  -- The service always runs the action of the command for the URI, with this response.
  pub record Answers (uri : String) (c : Command) (response : ExecuteResponse) : Type 0 where
    pub is_command : generator uri ≡ ok c
    pub is_executed :
        (w : W)
        → (stream : OperationStream) × (v : W) × (execution.execute
              (record {
                instance_name = req.instance_name;
                action_digest = l.get_proto (digest_of l f s (action (action_of c)));
              })
              w
            ≡ (ok stream, v))
          × (receive stream ≡ ok response)

  run-Answers :
      (uri : String) (c : Command) (response : ExecuteResponse) (w : W)
      → Answers uri c response
      → (v : W) × (run l content_addressable_storage execution req.instance_name f c w
          ≡ (ok response, v))
  unfolding run ◌>>=◌
  run-Answers uri c response w a =
      let u =
        (content_addressable_storage.put (digest_of l f s (action (action_of c)))
          (l.new_proto_buffer (action (action_of c))) w).1 in
      let x =
        (content_addressable_storage.put (digest_of l f s (command c))
          (l.new_proto_buffer (command c)) u).1 in
      let (stream, v, executes, receives) = a.is_executed x in
      (
        v,
        bind_step (lift (proto_serialise l (command c) f)) _ (proto_serialise-eq l f s (command c))
            ∙ bind_step (lift (proto_serialise l (action (action_of c)) f)) _
                (proto_serialise-eq l f s (action (action_of c)))
            ∙ bind_step (content_addressable_storage.put _ _) _ (puts_return _ _ w)
            ∙ bind_step (content_addressable_storage.put _ _) _ (puts_return _ _ u)
            ∙ ap (λ r. continue r (λ q. lift (receive q))) executes
            ∙ ap (λ r. (r, v)) receives,
      )

  -- The action for the URI fails.
  pub record Fails (uri : String) : Type 0 where
    pub command_of_uri : Command
    pub response : ExecuteResponse
    pub answers : Answers uri command_of_uri response
    pub is_failed : is_failure response.result ≡ true

  module _ (uri : String) (c : Command) (response : ExecuteResponse) (path : String)
      (answers : Answers uri c response) (is_good : is_failure response.result ≡ false)
      (is_path : first_path c.output_paths ≡ ok path) where
    try_uris-Answers :
        (failing rest : List String) (w : W)
        → All Fails failing
        → (try_uris l content_addressable_storage execution req.instance_name f generator
            (failing ++ uri ∷ rest)
            w).0
          ≡ ok (record { action_result = response.result; uri = uri; output_path = path })
    unfolding try_uris ◌>>=◌
    try_uris-Answers [] rest w none_fail =
        let (v, runs) = run-Answers uri c response w answers in
        rw (answers.is_command, runs) (rw (is_good, is_path) refl)
    try_uris-Answers (first ∷ failing) rest w (fails, fail) =
        let (v, runs) = run-Answers first fails.command_of_uri fails.response w fails.answers in
        rw (fails.answers.is_command, runs)
          (rw fails.is_failed (
            try_uris-Answers failing rest
              (log_failure l content_addressable_storage execution first v) fail))

    -- A FetchBlob by remote execution does not give up before a URI whose action succeeds: where the
    -- actions for all URIs before it are run and fail, it returns this URI and the digest of the
    -- file at the output path of the command, unless that is empty. The CAS takes every put, the
    -- digests of messages do not collide, and the request has valid qualifiers and the digest
    -- function `f`.
    pub fetch_blob-Answers :
        (failing rest : List String) (digest : Option ProtoDigest) (w : W)
        → get_digest_function l req.digest_function req.instance_name ≡ ok f
        → qualifiers_to_command req.qualifiers ≡ ok generator
        → req.uris ≡ failing ++ uri ∷ rest
        → All Fails failing
        → file_at path
            (files_of response.result)
            (empty_proto l content_addressable_storage execution f)
          ≡ digest
        → is_empty_digest digest ≡ false
        → (fetch_blob l content_addressable_storage execution req w).0
          ≡ ok (record {
            status = some (ok_status "Blob fetched successfully!");
            uri = uri;
            qualifiers = req.qualifiers;
            blob_digest = digest;
          })
    unfolding fetch_blob fetch_common ◌>>=◌
    fetch_blob-Answers failing rest digest w is_f is_generator uris fail is_file full =
        let tried =
          try_uris l content_addressable_storage execution req.instance_name f generator req.uris
            w in
        let fetches : tried ≡ (
          ok (record { action_result = response.result; uri = uri; output_path = path }),
          tried.1,
        ) =
          λ i. (
            (ap
                    (λ us.
                      (try_uris l content_addressable_storage execution req.instance_name f
                        generator us w).0)
                    uris
                  ∙ try_uris-Answers failing rest w fail)
                i,
            tried.1,
          ) in
        rw (is_f, is_generator) (rw fetches (rw is_file (rw full refl)))
