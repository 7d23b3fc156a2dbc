-- ===== src/Tools/Tests.antt =====
-- Runs of the tools at concrete inputs.
use tfai_go.Base.{◌≡◌, refl, List, [], ◌∷◌, Bytes, codes, none, pos, true, ok, has_prefix}
use tfai_go.Path.{clean}
use tfai_go.Path.Prefix.{Within, Within-refused}
use tfai_go.Disk.{Tree, Os, missing}
use tfai_go.Disk.Same.{SameFile}
use tfai_go.Tools.{Exec, PlanInput, StateInput}
use tfai_go.Tools.Generate.{GenerateInput, generate_run}
use tfai_go.Tools.Generate.Confined.{generate_run-SameFile}

abbrev exec : Exec
exec command = ok (record { stdout = codes "done"; stderr = []; exit_code = pos 1 })

abbrev plan : PlanInput
plan = record { dir = codes "/w"; var_files = codes "a.tfvars" ∷ []; destroy = true }

abbrev state : StateInput
state = record { dir = codes "/w"; subcommand = codes "show"; resource = codes "r.a" }

abbrev os : Os
os = record {
  write_error = λ tree path. none;
  mkdir_error = λ tree path. none;
  read_error = λ tree path. none;
  stat_error = λ tree path. none;
}

abbrev tree : Tree
tree path = missing

abbrev input : GenerateInput
input = record {
  dir = codes "/w";
  files =
      record { name = codes "main.tf"; content = codes "x" }
      ∷ record { name = codes "../e/m.tf"; content = codes "y" }
      ∷ [];
}

abbrev outer : Bytes
outer = codes "/e/m.tf"

outer_outside : ¬ Within (clean input.dir) outer
unfolding tfai_go.Path.clean tfai_go.Path.render tfai_go.Path.elements tfai_go.Path.push_element
    tfai_go.Path.up tfai_go.Path.join_elements tfai_go.Path.is_abs has_prefix tfai_go.Base.split
    tfai_go.Base.push_head tfai_go.Base.bytes_eq
outer_outside = Within-refused outer (clean input.dir) refl

generate_run-SameFile_example : SameFile (generate_run os tree (ok input)).0 tree outer
generate_run-SameFile_example = generate_run-SameFile os tree input outer outer_outside
