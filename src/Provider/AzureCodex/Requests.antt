-- ===== src/Provider/AzureCodex/Requests.antt =====
-- Which tools a request offers to the model.
use tfai_go.Base.{
  ◌≡◌, ◌≢◌, refl, inl, inr, List, [], ◌∷◌, map, bytes_eq, bytes_eq_cons, All, Bool-cases,
  if◌then◌else◌,
}
use tfai_go.Provider.AzureCodex.{
  Client, Message, ToolInfo, Options, codex_tool, convert_tools, apply_tools, request_of,
}

-- The tools that have a name.
pub named : List ToolInfo → List ToolInfo
named [] = []
named (t ∷ tools) = let rest = named tools in if bytes_eq t.name [] then rest else t ∷ rest

-- The first list, unless it is empty.
pub first_of {ℓ} : {A : Type ℓ} → List A → List A → List A
first_of [] ys = ys
first_of (x ∷ xs) ys = x ∷ xs

convert_tools-named : (tools : List ToolInfo) → convert_tools tools ≡ map codex_tool (named tools)
unfolding convert_tools named
convert_tools-named [] = refl
convert_tools-named (t ∷ tools) = elim (Bool-cases (bytes_eq t.name [])) [
  | inl e ↦ rw e (convert_tools-named tools)
  | inr e ↦ rw e (rw (convert_tools-named tools) refl)
]

named-All : (tools : List ToolInfo) → All (λ t. t.name ≢ []) (map codex_tool (named tools))
unfolding named codex_tool
named-All [] = tt
named-All (t ∷ tools) = elim (Bool-cases (bytes_eq t.name [])) [
  | inl e ↦ rw e (named-All tools)
  | inr e ↦ rw e (bytes_eq_cons t.name e, named-All tools)
]

apply_tools-first_of :
    (xs ys : List ToolInfo)
    → apply_tools (apply_tools [] (map codex_tool xs)) (map codex_tool ys)
      ≡ map codex_tool (first_of ys xs)
unfolding apply_tools first_of
apply_tools-first_of [] [] = refl
apply_tools-first_of (x ∷ xs) [] = refl
apply_tools-first_of [] (y ∷ ys) = refl
apply_tools-first_of (x ∷ xs) (y ∷ ys) = refl

first_of-All :
    (xs ys : List ToolInfo)
    → All (λ t. t.name ≢ []) (map codex_tool xs)
    → All (λ t. t.name ≢ []) (map codex_tool ys)
    → All (λ t. t.name ≢ []) (map codex_tool (first_of xs ys))
unfolding first_of
first_of-All [] ys hx hy = hy
first_of-All (x ∷ xs) ys hx hy = hx

-- A request offers the tools of the call that have a name, in order, or, if none has one, those bound to
-- the client that have a name; so no tool with an empty name is ever sent.
pub request_of-tools :
    (c : Client) (messages : List Message) (options : Options)
    → ((request_of c messages options).tools
        ≡ map codex_tool (first_of (named options.tools) (named c.bound_tools)))
      × All (λ t. t.name ≢ []) (request_of c messages options).tools
unfolding request_of
request_of-tools c messages options =
    rw (convert_tools-named c.bound_tools, convert_tools-named options.tools)
      (rw (apply_tools-first_of (named c.bound_tools) (named options.tools)) (
        refl,
        first_of-All (named options.tools) (named c.bound_tools) (named-All options.tools)
            (named-All c.bound_tools),
      ))
