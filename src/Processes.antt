-- ===== src/Processes.antt =====
-- src/adapters/claude-native-v1/darwin-procargs.mjs: the start time of a process, as `ps` renders it.
use universal_peer_mcp.Prelude.{
  ℕ, Bool, false, not, ◌||◌, Option, none, some, List, [], ◌∷◌, ◌++◌, String, Text, codes,
  same_text, str_eq, ◌==◌, if◌then◌else◌, any, length, trim, is_space, Outcome, ok, err, refuse,
  ◌>>=◌,
}
use universal_peer_mcp.Limits.{is_digit, is_lower_letter, is_upper_letter, fits, runs}

abbrev pub starts_space : Text → Bool
starts_space [] = false
starts_space (c ∷ t) = is_space c

-- `replace(/\s+/g, " ")`
unfoldable pub squeeze : Text → Text
squeeze [] = []
squeeze (c ∷ t) =
    let rest = squeeze t in
    if is_space c then (if starts_space t then rest else b' ' ∷ rest) else c ∷ rest

-- `normalizeProcStart`: what is not a string is no rendering.
unfoldable pub normalize_proc_start : Option String → Text
unfolding squeeze
normalize_proc_start none = []
normalize_proc_start (some value) = squeeze (trim (codes value))

-- `renderedProcStart`: `^[A-Z][a-z]{2} [A-Z][a-z]{2} \d{1,2} \d{2}:\d{2}:\d{2} \d{4}$`, on the squeezed text.
abbrev is_space_char : ℕ → Bool
is_space_char c = c == b' '

abbrev is_colon : ℕ → Bool
is_colon c = c == b':'

abbrev name_shape : List (ℕ → Bool)
name_shape = is_upper_letter ∷ is_lower_letter ∷ is_lower_letter ∷ is_space_char ∷ []

abbrev clock_shape : List (ℕ → Bool)
clock_shape =
    is_space_char
    ∷ is_digit
    ∷ is_digit
    ∷ is_colon
    ∷ is_digit
    ∷ is_digit
    ∷ is_colon
    ∷ is_digit
    ∷ is_digit
    ∷ is_space_char
    ∷ runs 4 is_digit

unfoldable pub rendered_proc_start : Option String → Outcome Text
unfolding normalize_proc_start
rendered_proc_start value =
    let rendering = normalize_proc_start value in
    if fits (name_shape ++ name_shape ++ is_digit ∷ clock_shape) rendering
      || fits (name_shape ++ name_shape ++ is_digit ∷ is_digit ∷ clock_shape) rendering
    then ok rendering
    else err none

-- The mode in the arguments that the kernel recorded: each `--permission-mode` with the token after it.
abbrev pub head_text : List Text → Option Text
head_text [] = none
head_text (t ∷ ts) = some t

pub modes_in : List Text → List (Option Text)
modes_in [] = []
modes_in (token ∷ argv) =
    let later = modes_in argv in
    if same_text token (codes "--permission-mode") then head_text argv ∷ later else later

abbrev pub mapped_mode : Text → Option String
mapped_mode raw =
    if same_text raw (codes "bypassPermissions")
    then some "bypass"
    else if any (λ mode. same_text raw (codes mode))
        ("default" ∷ "plan" ∷ "acceptEdits" ∷ "auto" ∷ [])
    then some "prompting"
    else none

-- An error carries the reason that `resolveReason` of src/core/peer-core.mjs reads from its message, if it has one.
abbrev pub the_mode : List (Option Text) → Outcome String
the_mode [] = refuse "permission_mode_unproven"
the_mode (none ∷ modes) = err none
the_mode (some raw ∷ (m ∷ modes)) = err none
the_mode (some raw ∷ []) = elim (mapped_mode raw) [
  | none ↦ refuse "permission_mode_unproven"
  | some mode ↦ ok mode
]

abbrev pub same_start : Text → String → Outcome {0} Unit
same_start held start =
    if same_text (normalize_proc_start (some start)) held then ok tt else err none

-- `provePermissionMode`: the start time is read before and after the arguments.
unfoldable pub prove_permission_mode :
    String → Text → Outcome String → Outcome (List Text) → Outcome String → Outcome String
unfolding normalize_proc_start modes_in
prove_permission_mode expected held before argv after =
    if not (str_eq expected "prompting" || str_eq expected "bypass")
    then err none
    else if length held == 0
    then err none
    else before >>= same_start held >>= λ _. argv >>= λ args.
        (if length args == 0 then err none else ok args) >>= λ args.
        after >>= same_start held >>= λ _.
        the_mode (modes_in args) >>= λ mode. if str_eq mode expected then ok mode else err none
