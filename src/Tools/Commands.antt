-- ===== src/Tools/Commands.antt =====
-- Which commands of terraform the tools run.
use tfai_go.Base.{◌⊎◌, ◌≡◌, ◌≢◌, ◌⊎◌, List, [], ◌∷◌, ◌++◌, Bytes, codes, All, err, map}
use tfai_go.Tools.{Invoked}

-- The subcommands that read: `plan` with its flags, or one of three of `state`.
pub data IsReading : List Bytes → Type 0 where
  plans :
      (flags var_files : List Bytes)
      → (flags ≡ codes "-no-color" ∷ []) ⊎ (flags ≡ codes "-no-color" ∷ codes "-destroy" ∷ [])
      → IsReading (codes "plan" ∷ flags ++ map (λ vf. codes "-var-file=" ++ vf) var_files)
  lists : IsReading (codes "state" ∷ codes "list" ∷ [])
  pulls : IsReading (codes "state" ∷ codes "pull" ∷ [])
  shows :
      (resource : Bytes)
      → resource ≢ []
      → IsReading (codes "state" ∷ codes "show" ∷ codes "-no-color" ∷ resource ∷ [])

-- Every command of a tool reads, in a directory that is given, and a tool that runs nothing returns an
-- error.
abbrev pub IsReadOnly : Invoked → Type 0
IsReadOnly (commands, result) =
    All (λ c. (c.directory ≢ []) × IsReading c.args) commands
    × (commands ≡ [] → (message : Bytes) × (result ≡ err message))
