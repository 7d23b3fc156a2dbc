-- ===== src/Tools/Generate/Confined.antt =====
-- No file outside the directory of the call.
use tfai_go.Base.{
  ◌≡◌, inl, inr, List, [], ◌∷◌, ◌++◌, Bytes, bytes_eq, has_prefix, length, ◌==◌, Result, ok, err,
  Bool-cases,
}
use tfai_go.Path.{separator, clean, join, dir}
use tfai_go.Path.Prefix.{Within, has_prefix-Within}
use tfai_go.Disk.{Tree, Os, write_file, mkdir_all}
use tfai_go.Disk.Same.{
  SameFile, SameFile-refl, SameFile-trans, write_file-SameFile, mkdir_all-SameFile,
}
use tfai_go.Tools.Generate.{
  NamedFile, GenerateInput, after_file, after_subdir, generate_file, then_file, generate_files,
  generate_report, in_root, generate_run,
}

module _ (os : Os) (other : Bytes) where
  after_file-SameFile :
      (start : Tree) (path : Bytes) (r : Tree × Result (Unit {0}))
      → SameFile r.0 start other
      → SameFile (after_file path r).0 start other
  unfolding after_file
  after_file-SameFile start path (tree, ok _) h = h
  after_file-SameFile start path (tree, err e) h = h

  after_subdir-SameFile :
      (start : Tree) (path : Bytes) (f : NamedFile) (r : Tree × Result (Unit {0}))
      → ¬ (path ≡ other)
      → SameFile r.0 start other
      → SameFile (after_subdir os path f r).0 start other
  unfolding after_subdir
  after_subdir-SameFile start path f (tree, ok _) ne h =
      after_file-SameFile start path (write_file os tree path f.content) (
        SameFile-trans (write_file os tree path f.content).0 tree start other
          (write_file-SameFile tree other os path f.content ne) h)
  after_subdir-SameFile start path f (tree, err e) ne h = h

  module _ (root : Bytes) (away : ¬ Within root other) where
    generate_file-SameFile :
        (tree : Tree) (f : NamedFile) → SameFile (generate_file os root tree f).0 tree other
    unfolding generate_file
    generate_file-SameFile tree f =
        let path = join root f.name in
        elim (Bool-cases (has_prefix (path ++ separator ∷ []) (root ++ separator ∷ []))) [
          | inl e ↦ rw e (
              after_subdir-SameFile tree path f (mkdir_all os tree (dir path))
                (λ same. away (rw same at (has_prefix-Within path root e)))
                (mkdir_all-SameFile tree other os (dir path)))
          | inr e ↦ rw e (SameFile-refl tree other)
        ]

    then_file-SameFile :
        (tree : Tree) (now : Tree × Result Bytes) (next : Tree → Bytes → Tree × Result (List Bytes))
        → SameFile now.0 tree other
        → ((after : Tree) (path : Bytes) → SameFile (next after path).0 after other)
        → SameFile (then_file now next).0 tree other
    unfolding then_file
    then_file-SameFile tree (after, ok path) next h k =
        SameFile-trans (next after path).0 after tree other (k after path) h
    then_file-SameFile tree (after, err e) next h k = h

    generate_files-SameFile :
        (tree : Tree) (written : List Bytes) (files : List NamedFile)
        → SameFile (generate_files os root tree written files).0 tree other
    unfolding generate_files
    generate_files-SameFile tree written [] = SameFile-refl tree other
    generate_files-SameFile tree written (f ∷ files) =
        then_file-SameFile tree (generate_file os root tree f) _ (generate_file-SameFile tree f)
          (λ after path. generate_files-SameFile after (written ++ path ∷ []) files)

  report-SameFile :
      (start : Tree) (dir : Bytes) (r : Tree × Result (List Bytes))
      → SameFile r.0 start other
      → SameFile (generate_report dir r).0 start other
  unfolding generate_report
  report-SameFile start dir (tree, ok written) h = h
  report-SameFile start dir (tree, err e) h = h

  in_root-SameFile :
      (start : Tree) (input : GenerateInput) (r : Tree × Result (Unit {0}))
      → ¬ Within (clean input.dir) other
      → SameFile r.0 start other
      → SameFile (in_root os input r).0 start other
  unfolding in_root
  in_root-SameFile start input (tree, err e) away h = h
  in_root-SameFile start input (tree, ok _) away h =
      report-SameFile start input.dir (generate_files os (clean input.dir) tree [] input.files) (
        SameFile-trans (generate_files os (clean input.dir) tree [] input.files).0 tree start other
          (generate_files-SameFile (clean input.dir) away tree [] input.files) h)

-- terraform_generate, whatever names and contents the model gives, in whatever order the map is walked,
-- and wherever it stops, neither makes, changes nor removes a file at a path that is not the cleaned
-- directory of the call or inside it.
pub generate_run-SameFile :
    (os : Os) (tree : Tree) (input : GenerateInput) (other : Bytes)
    → ¬ Within (clean input.dir) other
    → SameFile (generate_run os tree (ok input)).0 tree other
unfolding generate_run
generate_run-SameFile os tree input other away = elim (Bool-cases (bytes_eq input.dir [])) [
  | inl e ↦ rw e (SameFile-refl tree other)
  | inr e ↦ elim (Bool-cases (length input.files == 0)) [
    | inl n ↦ rw (e, n) (SameFile-refl tree other)
    | inr n ↦
        rw (e, n)
          (in_root-SameFile os other tree input (mkdir_all os tree (clean input.dir)) away
            (mkdir_all-SameFile tree other os (clean input.dir)))
  ]
]
