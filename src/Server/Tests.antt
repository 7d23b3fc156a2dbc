-- ===== src/Server/Tests.antt =====
-- Runs of the server's handlers at concrete inputs.
use tfai_go.Base.{
  ◌-◌, ◌==◌, All, not, ◌≢◌, ℕ, none, ◌↔◌, List, some, ◌≡◌, inr, Bool, true, false, [], ◌∷◌, ◌++◌,
  Bytes, codes, map, trim_right_byte, ok, arith, refl,
}
use tfai_go.Path.{clean, is_abs}
use tfai_go.Disk.{Os, Tree, missing}
use tfai_go.Server.Stream.{newline}
use tfai_go.Server.Stream.Decode.{decode, message}
use tfai_go.Server.Chat.{
  Answer, finish, write, ChatRequest, Outcome, streamed, allowed_origin, handle_chat,
}
use tfai_go.Auth.{Gate}
use tfai_go.Server.Chat.{completed, timed_out}
use tfai_go.Server.Metrics.{
  Reach, here, next, Chats, begins, counts, observes, leaves, panics, begin, count_request,
  observe_duration, leave, streaming, counted,
}
use tfai_go.Server.Metrics.Past.{idle, past}
use tfai_go.Server.Metrics.Counted.{IsCounted, Reach-IsCounted}
use tfai_go.RateLimit.{Rate, new_rate_limiter}
use tfai_go.Server.Health.{Pinger, handle_ready, check_of, multi_ping}
use tfai_go.Server.Health.Ready.{handle_ready-multi_ping}
use tfai_go.Server.Routes.{
  Request, post_chat, post_workspace_create, unauthorized, Setup, ResponseWriter, Serving, serve,
}
use tfai_go.Path.Prefix.{Within, Within-refused}
use tfai_go.Disk.Same.{SameFile}
use tfai_go.Server.Routes.Files.{serve-SameFile}
use tfai_go.Server.Routes.Access.{IsChatless, serve-unauthorized, serve_chat_refused}
use tfai_go.Server.Chat.Events.{
  patient_connection, texts_of, result_of, closing_events, handle_chat-decode,
}

abbrev empty : Tree
empty path = missing

abbrev reply : Tree → Bytes → Bytes → Answer
reply tree content workspace_dir =
    write (codes "a" ++ newline ∷ codes "b" ++ newline ∷ []) (λ r. finish tree (ok true))

abbrev req : ChatRequest
req = record { message = codes "hi"; workspace_dir = codes "/w" }

handle_chat-decode_example :
    (body : Bytes) × (outcome : Outcome) × ((handle_chat 8080 reply
        (patient_connection [] false)
        empty
        (some req)).1
      ≡ streamed (allowed_origin 8080 []) body outcome)
    × (decode body
        ≡ map
            (λ p. message (trim_right_byte newline p))
            (texts_of (reply empty req.message req.workspace_dir))
          ++ closing_events (result_of (reply empty req.message req.workspace_dir)))
unfolding texts_of result_of clean is_abs tfai_go.Path.elements tfai_go.Path.render
    tfai_go.Path.push_element tfai_go.Path.up tfai_go.Path.join_elements tfai_go.Base.split
    tfai_go.Base.push_head tfai_go.Base.bytes_eq
handle_chat-decode_example =
    handle_chat-decode 8080 reply [] false empty req (λ h. cc) (inr refl) (ground arith, tt) tt

abbrev pingers : List Pinger
pingers =
    record { name = codes "ollama"; ping = none }
    ∷ record { name = codes "qdrant"; ping = some (codes "down") }
    ∷ []

handle_ready-multi_ping_example :
    let (status, resp) = handle_ready pingers in
    (resp.checks ≡ map check_of pingers)
    × ((status ≡ 200) ↔ (multi_ping pingers ≡ none))
    × ((status ≡ 503) ↔ (multi_ping pingers ≢ none))
    × ((resp.ready ≡ true) ↔ All (λ p. p.ping ≡ none) pingers)
handle_ready-multi_ping_example = handle_ready-multi_ping pingers

abbrev rate : Rate
rate = record {
  Limit = ℕ;
  Limiter = ℕ;
  new_limiter = λ rps burst. burst;
  allow = λ l now. (not (l == 0), l - 1);
}

abbrev working : Os
working = record {
  write_error = λ tree path. none;
  mkdir_error = λ tree path. none;
  read_error = λ tree path. none;
  stat_error = λ tree path. none;
}

abbrev setup : Setup
setup = record {
  port = 8080;
  api_key = codes "s3cret";
  workspace_root = [];
  pingers = pingers;
  query = reply;
  os = working;
  walk = λ dir. none;
}

abbrev chat_request : Bytes → Request
chat_request header = record {
  call = post_chat (some req);
  remote_addr = codes "10.0.0.1:5000";
  authorization = header;
  origin = [];
  expired = false;
  client = λ sent frame. none;
}

abbrev net_writer : ResponseWriter
net_writer = record { flushes = true }

abbrev serving : Serving rate
serving = record { limiter = new_rate_limiter rate 10 20; tree = empty }

no_text : (s t : Bytes) → ¬ ([] ≡ s ++ b' ' ∷ t)
no_text [] t h = cc
no_text (c ∷ s) t h = cc

serve-unauthorized_example :
    (gate : Gate) × (serve rate setup (chat_request []) 0 net_writer serving
      ≡ (serving, unauthorized gate))
serve-unauthorized_example =
    serve-unauthorized rate setup (chat_request []) 0 net_writer serving (λ h. cc) refl
      (λ b. no_text b.scheme b.rest b.spelled)

serve_chat_refused_example :
    IsChatless serving
      (serve rate setup (chat_request (codes "Bearer s3cret")) 0 net_writer serving)
serve_chat_refused_example =
    serve_chat_refused rate setup (chat_request (codes "Bearer s3cret")) 0 net_writer serving
      (some req) refl

abbrev rooted_setup : Setup
rooted_setup = record setup { workspace_root = codes "/w" }

abbrev scaffold_request : Request
scaffold_request = record (chat_request (codes "Bearer s3cret")) {
  call = post_workspace_create (ok (record { dir = codes "/w/a"; description = [] }));
}

abbrev outer : Bytes
outer = codes "/e/m.tf"

root_cleaned : clean rooted_setup.workspace_root ≡ codes "/w"
unfolding clean is_abs tfai_go.Path.elements tfai_go.Path.render tfai_go.Path.push_element
    tfai_go.Path.up tfai_go.Path.join_elements tfai_go.Base.split tfai_go.Base.push_head
    tfai_go.Base.bytes_eq
root_cleaned = refl

outer_outside : ¬ Within (clean rooted_setup.workspace_root) outer
unfolding tfai_go.Base.has_prefix
outer_outside = Within-refused outer (clean rooted_setup.workspace_root) (rw root_cleaned refl)

root_absolute : is_abs rooted_setup.workspace_root ≡ true
unfolding is_abs
root_absolute = refl

serve-SameFile_example :
    SameFile
      (serve rate rooted_setup scaffold_request 0 net_writer serving).0.tree
      serving.tree
      outer
serve-SameFile_example =
    serve-SameFile rate rooted_setup outer root_absolute (λ e. cc (root_cleaned, e)) outer_outside
      scaffold_request 0 net_writer serving

-- Three chats at once: one ends with a timeout, Query panics in one, and one is between its two calls.
abbrev three_begun : Chats
three_begun = begin (begin (begin idle))

abbrev one_left : Chats
one_left = record {
  metrics =
      count_request
        (leave (leave (observe_duration (count_request three_begun.metrics timed_out) timed_out)))
        completed;
  running = counted completed ∷ [];
}

abbrev run_to_one_left : Reach idle one_left
run_to_one_left =
    next
      (next
        (next
          (next
            (next (next (next (next here (begins refl)) (begins refl)) (begins refl))
              (counts timed_out (streaming ∷ streaming ∷ []) [] refl refl))
            (observes timed_out (streaming ∷ streaming ∷ []) [] refl refl))
          (leaves (streaming ∷ streaming ∷ []) [] refl refl))
        (panics [] (streaming ∷ []) refl refl))
      (counts completed [] [] refl refl)

Reach-IsCounted_example : IsCounted one_left (past run_to_one_left)
Reach-IsCounted_example = Reach-IsCounted run_to_one_left
