-- ===== src/Agent/Apply/Written/Tests.antt =====
-- A run of applyFiles at a concrete input: the second file replaces the first.
use tfai_go.Base.{◌≡◌, refl, none, some, [], ◌∷◌, Bytes, codes}
use tfai_go.Disk.{Tree, Os, missing, file}
use tfai_go.Agent.Apply.{
  TerraformAgentOutput, relative_path, target, after_write, after_mkdir, apply_target, then_next,
  apply_from, apply_files,
}
use tfai_go.Agent.Apply.Written.{last_content, meets, or_earlier, apply_files-written}

abbrev os : Os
os = record {
  write_error = λ tree path. none;
  mkdir_error = λ tree path. none;
  read_error = λ tree path. none;
  stat_error = λ tree path. none;
}

abbrev tree : Tree
tree path = missing

abbrev output : TerraformAgentOutput
output = record {
  files =
      record { path = codes "m.tf"; content = codes "x" }
      ∷ record { path = codes "a/../m.tf"; content = codes "y" }
      ∷ [];
  summary = codes "done";
}

apply_files-written_example :
    (apply_files os tree output (codes "/w")).0 (codes "/w/m.tf") ≡ file (codes "y")
unfolding apply_files apply_from apply_target target after_mkdir after_write then_next relative_path
    last_content meets or_earlier tfai_go.Path.clean tfai_go.Path.render tfai_go.Path.elements
    tfai_go.Path.push_element tfai_go.Path.up tfai_go.Path.join_elements tfai_go.Path.is_abs
    tfai_go.Path.join tfai_go.Path.up_to_separator tfai_go.Path.dir tfai_go.Base.bytes_eq
    tfai_go.Base.trim_prefix tfai_go.Base.split tfai_go.Disk.mkdir_all tfai_go.Disk.write_file
apply_files-written_example =
    apply_files-written os tree output (codes "/w") (codes "/w/m.tf") (codes "y") refl refl
