-- ===== src/Fetch/Http/Client.antt =====
-- What pkg/fetch/http_fetcher.go reaches outside the program: an HTTP client, temporary files,
-- buffers and the log. A body is the chunks that the server sends, up to its end or an error.
use bb_remote_asset.Prelude.{ℕ, String, Bool, Option, List}
use bb_remote_asset.Prelude.Int.{ℤ}
use bb_remote_asset.Prelude.Effect.{Code, ok, Error, Result, err, panic, Exec}
use bb_remote_asset.Storage.Libraries.{Libraries}
use bb_remote_asset.Fetch.Http.Headers.{AuthHeaders, Request}

pub data Stream (Bytes : Type 0) : Type 0 where
  eof : Stream Bytes
  failed : Error → Stream Bytes
  chunk : Bytes → Stream Bytes → Stream Bytes

-- http.Response; `connection` is what Body.Close closes.
pub record Response (Bytes Connection : Type 0) : Type 0 where
  pub status_code : ℕ
  pub status : String
  pub content_length : ℤ
  pub connection : Connection
  pub stream : Stream Bytes

-- A call that returns an `error`, nil if it is `none`.
abbrev pub Fallible : Type 0 → Type 0
Fallible W = W → Option Error × W

pub record Transfer (l : Libraries) (W : Type 0) : Type 1 where
  pub Connection : Type 0
  pub File : Type 0
  -- http.NewRequestWithContext, which may refuse the URI, http.Client.Do and Body.Close
  pub new_request : String → Result (Unit {0})
  pub do_request : Request → Exec W (Response l.Bytes Connection)
  pub close_body : Connection → Fallible W
  -- os.CreateTemp, and the methods and functions on the file
  pub create_temp : Exec W File
  pub write_file : File → l.Bytes → Exec W (Unit {0})
  pub close_file : File → Fallible W
  pub remove_file : File → Fallible W
  pub file_name : File → String
  -- errors.Is(err, os.ErrNotExist)
  pub is_not_exist : Error → Bool
  -- buffer.NewBufferFromError, buffer.NewValidatedBufferFromReaderAt with the Close of its reader,
  -- and Discard
  pub buffer_from_error : Error → l.Buffer
  pub buffer_from_reader_at : File → Fallible W → ℤ → l.Buffer
  pub discard : l.Buffer → W → W
  -- bb_digest.BadDigest
  pub bad_digest : l.Digest
  -- util.StatusWrapWithCode of a nil error
  pub wrap_no_error : Code → String → Result Error
  pub printf : String → W → W
  -- json.Unmarshal into AuthHeaders, and the order in which a map is ranged over
  pub unmarshal : String → Result AuthHeaders
  pub range : List (String × String) → List (String × String)

module _ {W A : Type 0} where
  abbrev pub after_failure : (W → W) → Result A × W → Result A × W
  after_failure cleanup (ok a, v) = (ok a, v)
  after_failure cleanup (err x e, v) = (err x e, cleanup v)
  after_failure cleanup (panic, v) = (panic, cleanup v)

  -- A deferred call that acts unless the function succeeds.
  abbrev pub on_failure : (W → W) → Exec W A → Exec W A
  on_failure cleanup m w = after_failure cleanup (m w)

  -- An error is logged before it is handed on.
  abbrev pub log_error : (Error → W → W) → Result A × W → Result A × W
  log_error printf (err x e, v) = (err x e, printf e v)
  log_error printf r = r
