-- ===== src/Server/Chat/Refused.antt =====
-- The chat on a response writer that cannot be flushed.
use tfai_go.Base.{
  ◌≡◌, refl, ℕ, inl, inr, false, Option, none, some, [], Bytes, codes, bytes_eq, not, ◌&&◌,
  Bool-cases,
}
use tfai_go.Path.{clean, is_abs}
use tfai_go.Disk.{Tree}
use tfai_go.Server.Chat.{Answer, Connection, ChatRequest, refused, handle_chat}

-- The handler then leaves the files alone and refuses the request, whatever it holds.
pub handle_chat-refused :
    (port : ℕ) (query : Tree → Bytes → Bytes → Answer) (c : Connection) (tree : Tree)
    (body : Option ChatRequest)
    → c.flushes ≡ false
    → (status : ℕ) × (text : Bytes) × (handle_chat port query c tree body
        ≡ (tree, refused status text))
unfolding handle_chat
handle_chat-refused port query c tree none f = (400, codes "invalid request body", refl)
handle_chat-refused port query c tree (some req) f = elim (Bool-cases (bytes_eq req.message [])) [
  | inl e ↦ (400, codes "message is required", rw e refl)
  | inr e ↦
      elim (Bool-cases
        (not (bytes_eq req.workspace_dir []) && not (is_abs (clean req.workspace_dir)))) [
          | inl d ↦ (400, codes "workspaceDir must be an absolute path", rw (e, d) refl)
          | inr d ↦ (500, codes "streaming not supported", rw (e, d, f) refl)
        ]
]
