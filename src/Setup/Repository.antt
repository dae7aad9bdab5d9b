-- ===== src/Setup/Repository.antt =====
-- setup-railway.js: the repository that normalizeRepo reads from an address.
use Prim.Native.String.{[], ◌∷◌, ◌++◌}
use pe_hackathon.Base.{
  ◌≡◌, refl, sym, ap, ◌∙◌, code, Char, Bool, true, false, ◌||◌, Option, none, some, String, List,
  arith, eq_iff, Bool-cases, inl, inr, ℕ, suc, ◌+◌, ◌<◌, eqb, ◌==◌, or_else, is_some, if◌then◌else◌,
}
use pe_hackathon.Base
use pe_hackathon.Text.{is_empty, trim_start, trim_end, trim, to_lower, template, is_space}
use pe_hackathon.Text.Prepend.{
  prepend, append-prepend, prepend-nil, prepend-snoc, is_empty-prepend, trim_end-prepend,
  size-prepend, template-joined,
}
use pe_hackathon.Text.Laws.{size, size-to_lower}
use pe_hackathon.Setup.Project.{
  strip_git, has_slash, match_name, match_path, after_prefix, match_after_host, match_here,
  match_repo, normalize_repo,
}

-- A part of a path: some text without a slash.
abbrev pub IsSegment : String → Type 0
IsSegment s = (is_empty s ≡ false) × (has_slash s ≡ false)

or-left : (a b : Bool) → (a || b) ≡ false → a ≡ false
or-left a b h = ground arith

or-right : (a b : Bool) → (a || b) ≡ false → b ≡ false
or-right a b h = ground arith

has_slash-prepend : (s t : String) → has_slash (prepend s t) ≡ (has_slash s || has_slash t)
unfolding has_slash
has_slash-prepend [] t = refl
has_slash-prepend (c ∷ s) t = ground (arith, has_slash-prepend s t)

git-git : (to_lower ".git" == ".git") ≡ true
unfolding to_lower
git-git = refl

longer-git : (s : String) → 4 < size s → (to_lower s == ".git") ≡ false
longer-git s h = elim (Bool-cases (to_lower s == ".git")) [
  | inl same ↦
      let eq : size (to_lower s) ≡ 4 = ap size ((eq_iff (to_lower s) ".git").0 same) in
      absurd (omega (arith, size-to_lower s))
  | inr other ↦ other
]

strip_git-prepend : (name : String) → is_empty name ≡ false → strip_git (prepend name ".git") ≡ name
unfolding strip_git
strip_git-prepend [] h = ground arith
strip_git-prepend (c ∷ []) h = rw git-git refl
strip_git-prepend (c ∷ d ∷ name) h =
    let long : 4 < size (d ∷ prepend name ".git") = omega (arith, size-prepend name ".git") in
    rw (longer-git (d ∷ prepend name ".git") long)
      (ap (λ s. c ∷ s) (strip_git-prepend (d ∷ name) refl))

module _ (name : String) (n : IsSegment name) where
  match_name-prepend : match_name (prepend name ".git") ≡ some name
  unfolding match_name has_slash
  match_name-prepend =
      rw (is_empty-prepend name ".git" refl)
        (rw (has_slash-prepend name ".git") (rw (n.1) (rw (strip_git-prepend name n.0) refl)))

  match_path-prepend :
      (acc owner : String)
      → has_slash owner ≡ false
      → is_empty (prepend acc owner) ≡ false
      → match_path acc (prepend owner (prepend "/" (prepend name ".git")))
        ≡ some (prepend acc (prepend owner (prepend "/" name)))
  unfolding match_path has_slash
  match_path-prepend acc [] h k =
      rw (ap is_empty (sym (prepend-nil acc)) ∙ k)
        (rw match_name-prepend (ap some (append-prepend acc (prepend "/" name))))
  match_path-prepend acc (c ∷ owner) h k =
      let other : eqb (code c) 47 ≡ false = or-left (eqb (code c) 47) (has_slash owner) h in
      let flat : has_slash owner ≡ false = or-right (eqb (code c) 47) (has_slash owner) h in
      rw other (
        match_path-prepend (acc ++ (c ∷ [])) owner flat (ap is_empty (prepend-snoc acc c owner) ∙ k)
        ∙ ap some (prepend-snoc acc c (prepend owner (prepend "/" name))))

-- `${owner}/${name}`
abbrev pub repository : String → String → List String
repository owner name = Base.◌∷◌ owner (Base.◌∷◌ "/" (Base.◌∷◌ name Base.[]))

-- `${owner}/${name}.git`
abbrev pub clone_path : String → String → List String
clone_path owner name = Base.◌∷◌ owner (Base.◌∷◌ "/" (Base.◌∷◌ name (Base.◌∷◌ ".git" Base.[])))

module _ (owner name : String) (o : IsSegment owner) (n : IsSegment name) where
  -- The path of the repository with the suffix that a clone address has.
  abbrev path : String
  path = prepend owner (prepend "/" (prepend name ".git"))

  trim_end-path : (s : String) → trim_end (prepend s path) ≡ prepend s path
  unfolding trim_end is_space
  trim_end-path s = trim_end-prepend s path (is_empty-prepend owner _ refl) (
      trim_end-prepend owner _ refl (
        trim_end-prepend "/" _ (is_empty-prepend name ".git" refl)
          (trim_end-prepend name ".git" refl refl)))

  match_repo-https :
      match_repo (prepend "https://github.com/" path) ≡ some (prepend owner (prepend "/" name))
  unfolding match_repo match_here after_prefix match_after_host to_lower
  match_repo-https = rw (match_path-prepend name n "" owner o.1 o.0) refl

  match_repo-ssh :
      match_repo (prepend "git@github.com:" path) ≡ some (prepend owner (prepend "/" name))
  unfolding match_repo match_here after_prefix match_after_host to_lower
  match_repo-ssh = rw (match_path-prepend name n "" owner o.1 o.0) refl

  trim-https : trim (prepend "https://github.com/" path) ≡ prepend "https://github.com/" path
  unfolding trim trim_start is_space
  trim-https = trim_end-path "https://github.com/"

  trim-ssh : trim (prepend "git@github.com:" path) ≡ prepend "git@github.com:" path
  unfolding trim trim_start is_space
  trim-ssh = trim_end-path "git@github.com:"

  -- A clone address of a repository on GitHub, over HTTPS or SSH, is read back as the owner and the name it
  -- was made from, where both are some text without a slash; the name may itself end in ".git".
  pub normalize_repo-template :
      (normalize_repo (some (template (Base.◌∷◌ "https://github.com/" (clone_path owner name))))
        ≡ template (repository owner name))
      × (normalize_repo (some (template (Base.◌∷◌ "git@github.com:" (clone_path owner name))))
          ≡ template (repository owner name))
  unfolding normalize_repo
  normalize_repo-template = (
    rw (template-joined (Base.◌∷◌ "https://github.com/" (clone_path owner name)))
        (rw trim-https (rw match_repo-https (sym short))),
    rw (template-joined (Base.◌∷◌ "git@github.com:" (clone_path owner name)))
        (rw trim-ssh (rw match_repo-ssh (sym short))),
  )
    where
      short : template (repository owner name) ≡ prepend owner (prepend "/" name)
      short =
          template-joined (repository owner name)
          ∙ ap (λ u. prepend owner (prepend "/" u)) (prepend-nil name)
