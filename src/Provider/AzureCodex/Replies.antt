-- ===== src/Provider/AzureCodex/Replies.antt =====
-- What Generate makes of the response of the endpoint.
use tfai_go.Base.{◌≡◌, ◌≢◌, ℕ, List, ◌∷◌, ◌++◌, Bytes, codes, All, none, ok, ◌≤◌, ◌<◌}
use tfai_go.Provider.AzureCodex.{
  Client, Message, Options, Services, CodexResponse, CodexOutputItem, Generated, message_of,
  http_request, request_of,
}

-- The item is the first of type `message`.
pub record IsFirstMessage (items : List CodexOutputItem) (item : CodexOutputItem) : Type 0 where
  pub before : List CodexOutputItem
  pub after : List CodexOutputItem
  pub spelled : items ≡ before ++ item ∷ after
  pub others : All (λ i. i.type ≢ codes "message") before
  pub is_message : item.type ≡ codes "message"

-- The reply of the endpoint to a request, as far as it is an answer: a status of success, a body that
-- parses, no error in it, and a message item.
pub record IsReply (s : Services) (c : Client) (messages : List Message) (options : Options)
    (g : Generated) : Type 0 where
  pub body : Bytes
  pub marshalled : s.marshal (request_of c messages options) ≡ ok body
  pub status : ℕ
  pub text : Bytes
  pub posted : s.post (http_request c body) ≡ ok (status, ok text)
  pub success : (200 ≤ status) × (status < 300)
  pub resp : CodexResponse
  pub parsed : s.unmarshal text ≡ ok resp
  pub no_error : resp.error ≡ none
  pub item : CodexOutputItem
  pub first : IsFirstMessage resp.output item
  pub result :
      g ≡ record { message = message_of item; finish_reason = resp.status; usage = resp.usage }
