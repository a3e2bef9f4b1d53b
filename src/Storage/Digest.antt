-- ===== src/Storage/Digest.antt =====
-- pkg/storage/digest.go: a message in wire format, with its digest.
use bb_remote_asset.Prelude.{ℕ, ◌≡◌}
use bb_remote_asset.Prelude.Int.{pos}
use bb_remote_asset.Prelude.Effect.{ok, Result, and_then}
use bb_remote_asset.Storage.Messages.{Message}
use bb_remote_asset.Storage.Libraries.{Libraries}

module _ (l : Libraries) where
  open l use {
    Function, Digest, Buffer, Bytes, Generator, new_generator, write, sum, new_proto_buffer,
    get_size_bytes, to_byte_slice,
  }

  -- `ProtoSerialise`
  unfoldable pub proto_serialise : Message → Function → Result (Buffer × Digest)
  proto_serialise pb digest_function =
      let buf = new_proto_buffer pb in
      and_then (get_size_bytes buf) λ size_bytes. and_then (to_byte_slice buf size_bytes) λ raw.
        and_then (write (new_generator digest_function (pos size_bytes)) raw)
          λ digest_generator. ok (buf, sum digest_generator)

  -- `EmptyDigest`
  unfoldable pub empty_digest : Function → Digest
  empty_digest digest_function = sum (new_generator digest_function (pos 0))

  -- What the libraries document: a message made by the program is serialised without an error,
  -- to bytes that determine it; the digest is a hash of the bytes, and no two messages collide.
  pub record Serialises (f : Function) : Type 0 where
    pub size_of : Message → ℕ
    pub bytes_of : Message → Bytes
    pub written : ℕ → Bytes → Generator
    pub hash : Bytes → Digest
    pub has_size : (m : Message) → get_size_bytes (new_proto_buffer m) ≡ ok (size_of m)
    pub has_bytes : (m : Message) → to_byte_slice (new_proto_buffer m) (size_of m) ≡ ok (bytes_of m)
    pub writes : (n : ℕ) (b : Bytes) → write (new_generator f (pos n)) b ≡ ok (written n b)
    pub sums : (n : ℕ) (b : Bytes) → sum (written n b) ≡ hash b
    pub no_collision : (m n : Message) → hash (bytes_of m) ≡ hash (bytes_of n) → m ≡ n

  module _ (f : Function) (s : Serialises f) where
    -- The digest under which a message is known.
    unfoldable pub digest_of : Message → Digest
    digest_of m = s.hash (s.bytes_of m)

    -- A message is serialised to its buffer and its digest.
    pub proto_serialise-eq :
        (m : Message) → proto_serialise m f ≡ ok (new_proto_buffer m, digest_of m)
    unfolding proto_serialise digest_of
    proto_serialise-eq m = rw (s.has_size m) (
        rw (s.has_bytes m)
          (rw (s.writes (s.size_of m) (s.bytes_of m)) (rw (s.sums (s.size_of m) (s.bytes_of m)))))

    -- Different messages have different digests.
    pub digest_of_injective : (m n : Message) → digest_of m ≡ digest_of n → m ≡ n
    unfolding digest_of
    digest_of_injective m n e = s.no_collision m n e
