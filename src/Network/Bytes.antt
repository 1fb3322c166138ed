-- ===== src/Network/Bytes.antt =====
-- Headers and payloads in buffers.
use everything.Base.{
  append_nil, ℕ, ◌+◌, ◌*◌, ◌/◌, ◌%◌, ◌^◌, ◌≤◌, ◌<◌, ◌≡◌, refl, sym, ap, ◌∙◌, some, List, [], ◌++◌,
  true, leb, arith, length, drop, length-append, take-append, drop-append,
}
use everything.Network.{word, read_word, header_bytes, read_header, bcopy}

read_word-word : (x : ℕ) (rest : List ℕ) → x < 2 ^ 32 → read_word (word x ++ rest) ≡ some (x, rest)
unfolding word read_word
read_word-word x rest h =
    ap (λ (t : ℕ). some (t, rest))
      {x = x % 256 + x / 256 % 256 * 256 + x / 65536 % 256 * 65536 + x / 16777216 % 256 * 16777216}
      (omega arith)

header_bytes-words :
    (to from len : ℕ) (rest : List ℕ)
    → header_bytes to from len ++ rest ≡ word to ++ (word from ++ (word len ++ rest))
unfolding header_bytes word
header_bytes-words to from len rest = refl

pub read_header-header_bytes :
    (to from len : ℕ) (rest : List ℕ)
    → to < 2 ^ 32
    → from < 2 ^ 32
    → len < 2 ^ 32
    → read_header (header_bytes to from len ++ rest) ≡ some (to, from, len)
unfolding read_header
read_header-header_bytes to from len rest a b c =
    rw
      (
        header_bytes-words to from len rest,
        read_word-word to (word from ++ (word len ++ rest)) a,
        read_word-word from (word len ++ rest) b,
        read_word-word len rest c,
      )
      refl

pub length-header_bytes : (to from len : ℕ) → length (header_bytes to from len) ≡ 12
unfolding header_bytes word
length-header_bytes to from len = refl

-- A copy behind `pre`, from a source that begins with the bytes that are copied.
pub bcopy-append :
    (pre post body rest : List ℕ) (offset len : ℕ)
    → length pre ≡ offset
    → length body ≡ len
    → len ≤ length post
    → bcopy (body ++ rest) (pre ++ post) offset len ≡ some (pre ++ body ++ drop len post)
unfolding bcopy
bcopy-append pre post body rest offset len p b fits =
    let enough : leb len (length (body ++ rest)) ≡ true = ground (arith, length-append body rest) in
    let room : leb (offset + len) (length (pre ++ post)) ≡ true =
      ground (arith, length-append pre post) in
    rw
      (
        enough,
        room,
        take-append offset pre post p,
        take-append len body rest b,
        drop-append offset len pre post p,
      )
      refl

-- A copy to the front of a buffer.
pub bcopy-front :
    (post body rest : List ℕ) (len : ℕ)
    → length body ≡ len
    → len ≤ length post
    → bcopy (body ++ rest) post 0 len ≡ some (body ++ drop len post)
bcopy-front post body rest len b fits = bcopy-append [] post body rest 0 len refl b fits

pub bcopy-whole :
    (post body : List ℕ) (len : ℕ)
    → length body ≡ len
    → len ≤ length post
    → bcopy body post 0 len ≡ some (body ++ drop len post)
bcopy-whole post body len b fits =
    ap (λ (xs : List ℕ). bcopy xs post 0 len) (sym (append_nil body))
    ∙ bcopy-front post body [] len b fits
