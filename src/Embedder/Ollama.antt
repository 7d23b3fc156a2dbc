-- ===== src/Embedder/Ollama.antt =====
-- Embed of internal/embedder/ollama.go: the request for a batch of texts and the checks on the answer. Sending
-- the request and decoding the body are a parameter: it gives the error of the transport, or the status with
-- the decoded body or the error of the decoder. An embedding is what the decoder makes of one JSON array.
use tfai_go.Agent.Messages.{decimal}
use tfai_go.Base.{
  ◌∙◌, sym, ap, ok_inj, inr, inl, Bool-cases, arith, ◌↔◌, ◌<◌, ◌≡◌, ◌≤◌, [], ℕ, List, Bytes, codes,
  bytes_eq, length, ◌++◌, Result, ok, err, ltb, leb, not, ◌||◌, ◌==◌, if◌then◌else◌,
}
use tfai_go.Embedder.{OllamaConfig}

-- ollamaEmbedRequest, with the address it is posted to
pub record OllamaRequest : Type 0 where
  pub url : Bytes
  pub model : Bytes
  pub input : List Bytes

-- ollamaEmbedResponse
pub record OllamaResponse (Vector : Type 0) : Type 0 where
  pub embeddings : List Vector
  pub error : Bytes

-- The HTTP response: its status, and what the decoder makes of the body.
pub record OllamaReply (Vector : Type 0) : Type 0 where
  pub status : ℕ
  pub decoded : Result (OllamaResponse Vector)

pub ollama_request : OllamaConfig → List Bytes → OllamaRequest
ollama_request e texts = record {
  url = e.host ++ codes "/api/embed";
  model = e.model;
  input = texts;
}

module _ {Vector : Type 0} where
  -- The checks on a body that the decoder takes, for the count of the texts.
  pub accept_response : ℕ → ℕ → OllamaResponse Vector → Result (List Vector)
  accept_response n status result =
      if ltb status 200 || leb 300 status
      then err (
          codes "ollama embedder: "
          ++ (if bytes_eq result.error [] then codes "HTTP " ++ decimal status else result.error))
      else if not (length result.embeddings == n)
      then err (
          codes "ollama embedder: expected "
          ++ decimal n
          ++ codes " embeddings, got "
          ++ decimal (length result.embeddings))
      else ok result.embeddings

  pub decode_reply : ℕ → ℕ → Result (OllamaResponse Vector) → Result (List Vector)
  decode_reply n status (err message) = err (codes "ollama embedder: decode response: " ++ message)
  decode_reply n status (ok result) = accept_response n status result

  pub read_reply : ℕ → Result (OllamaReply Vector) → Result (List Vector)
  unfolding decode_reply
  read_reply n (err message) = err (codes "ollama embedder: request failed: " ++ message)
  read_reply n (ok reply) = decode_reply n reply.status reply.decoded

  -- Embed
  pub ollama_embed :
      (OllamaRequest → Result (OllamaReply Vector))
      → OllamaConfig
      → List Bytes
      → Result (List Vector)
  unfolding read_reply ollama_request
  ollama_embed post e texts = read_reply (length texts) (post (ollama_request e texts))

  -- The answer is one of success, with this list of embeddings, one for each of n texts.
  abbrev pub IsAccepted : ℕ → Result (OllamaReply Vector) → List Vector → Type 0
  IsAccepted n reply vectors =
      (status : ℕ) × (message : Bytes) × (reply
        ≡ ok (record {
          status = status;
          decoded = ok (record { embeddings = vectors; error = message });
        }))
      × (200 ≤ status)
      × (status < 300)
      × (length vectors ≡ n)

  decode_reply-IsAccepted :
      (n status : ℕ) (decoded : Result (OllamaResponse Vector)) (vectors : List Vector)
      → decode_reply n status decoded ≡ ok vectors
      → IsAccepted n (ok (record { status = status; decoded = decoded })) vectors
  unfolding decode_reply accept_response
  decode_reply-IsAccepted n status (err message) vectors h = cc
  decode_reply-IsAccepted n status (ok result) vectors h =
      elim (Bool-cases (ltb status 200 || leb 300 status)) [
        | inl e ↦ cc (rw e at h)
        | inr e ↦ elim (Bool-cases (length result.embeddings == n)) [
          | inl k ↦
              let v = ok_inj (rw (e, k) at h) in
              (
                status,
                result.error,
                ap
                    (λ w. ok (record {
                      status = status;
                      decoded = ok (record { embeddings = w; error = result.error });
                    }))
                    v,
                ground arith,
                ground arith,
                ap length (sym v) ∙ ground arith,
              )
          | inr k ↦ cc (rw (e, k) at h)
        ]
      ]

  read_reply-IsAccepted :
      (n : ℕ) (reply : Result (OllamaReply Vector)) (vectors : List Vector)
      → read_reply n reply ≡ ok vectors
      → IsAccepted n reply vectors
  unfolding read_reply
  read_reply-IsAccepted n (err message) vectors h = cc
  read_reply-IsAccepted n (ok reply) vectors h =
      decode_reply-IsAccepted n reply.status reply.decoded vectors h

  accept_response_accepted :
      (n status : ℕ) (result : OllamaResponse Vector)
      → 200 ≤ status
      → status < 300
      → length result.embeddings ≡ n
      → accept_response n status result ≡ ok result.embeddings
  unfolding accept_response
  accept_response_accepted n status result l h c = ground arith

  accepted_read :
      (n : ℕ) (reply : Result (OllamaReply Vector)) (vectors : List Vector)
      → IsAccepted n reply vectors
      → read_reply n reply ≡ ok vectors
  unfolding read_reply decode_reply
  accepted_read n reply vectors (status, message, r, l, h, c) =
      rw r
        (accept_response_accepted n status (record { embeddings = vectors; error = message }) l h c)

  -- The Ollama client gives embeddings just if the answer came, its status is from 200 to 299, its body decodes, and
  -- these are the embeddings of the body, one for each text.
  pub ollama_embed_ok_iff :
      (post : OllamaRequest → Result (OllamaReply Vector)) (e : OllamaConfig) (texts : List Bytes)
      (vectors : List Vector)
      → (ollama_embed post e texts ≡ ok vectors)
        ↔ IsAccepted (length texts) (post (ollama_request e texts)) vectors
  unfolding ollama_embed
  ollama_embed_ok_iff post e texts vectors = (
    read_reply-IsAccepted (length texts) (post (ollama_request e texts)) vectors,
    accepted_read (length texts) (post (ollama_request e texts)) vectors,
  )
