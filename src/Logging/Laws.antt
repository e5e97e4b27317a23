-- ===== src/Logging/Laws.antt =====
-- Where a logger writes, and when it can be made.
use mcp_searxng.Prelude.{
  ◌≡◌, ◌≢◌, ◌⊎◌, refl, inl, inr, ◌||◌, [], Option, none, ok, arith, Result-cases, Bool-cases,
}
use mcp_searxng.Text.{Str, str, str_eq, str_eq_iff}
use mcp_searxng.Errors.{GoError}
use mcp_searxng.Packages.{Letters}
use mcp_searxng.Log
use mcp_searxng.Log.{Level}
use mcp_searxng.Logging.{
  text, Output, stdout, discard, file, Logger, Options, parse_format, level_or_info, output_channel,
  is_given, new,
}

module _ (L : Letters) (open_file : Str → Option GoError) where
  -- A logger that writes to the terminal, to the file of its options, or nowhere.
  abbrev pub Written : Options → Output → Type 0
  Written opts output =
      ((output ≡ stdout) × (opts.mode ≡ str "http") × (opts.filename ≡ []))
      ⊎ (((output ≡ file opts.filename) × (opts.filename ≢ []) × (open_file opts.filename ≡ none))
          ⊎ ((output ≡ discard) × (opts.mode ≢ str "http")))

  output_channel-ok :
      (opts : Options) (output : Output)
      → output_channel open_file opts ≡ ok output
      → Written opts output
  unfolding output_channel
  output_channel-ok opts output h =
      ground (arith, str_eq_iff opts.filename [], str_eq_iff opts.mode (str "http"))

  -- A logger writes to standard output only in http mode and without a file name, to the file that
  -- is named if it could be opened, and otherwise nowhere, which happens in other modes only. With
  -- neither http mode nor a level it is the silent one, and so at panic level.
  pub new-ok :
      (opts : Options) (logger : Logger)
      → new L open_file opts ≡ ok logger
      → Written opts logger.output
        × (((opts.mode ≢ str "http")
              × (opts.level ≡ none)
              × (logger.output ≡ discard)
              × (logger.level ≡ Log.panic))
            ⊎ (((opts.mode ≡ str "http") ⊎ (opts.level ≢ none))
                × (level_or_info L opts.level ≡ ok logger.level)
                × (parse_format L opts.format ≡ ok logger.formatter)))
  unfolding new
  new-ok opts logger h = elim (Result-cases (parse_format L opts.format)) [
    | inr (e, f) ↦ absurd (ground arith)
    | inl (formatter, f) ↦
        elim (Bool-cases (str_eq opts.mode (str "http") || is_given opts.level)) [
          | inr off ↦
              let other_mode : opts.mode ≢ str "http" =
                λ e. ground (arith, (str_eq_iff opts.mode (str "http")).1 e) in
              let silent : logger
                  ≡ record { output = discard; formatter = text; level = Log.panic } =
                ground arith in
              rw silent (inr (inr (refl, other_mode)), inl (other_mode, ground arith, refl, refl))
          | inl on ↦ elim (Result-cases (level_or_info L opts.level)) [
            | inr (e, g) ↦ absurd (ground arith)
            | inl (level, g) ↦ elim (Result-cases (output_channel open_file opts)) [
              | inr (e, k) ↦ absurd (ground arith)
              | inl (output, k) ↦
                  let enabled : logger
                      ≡ record { output = output; formatter = formatter; level = level } =
                    ground arith in
                  let wanted : (opts.mode ≡ str "http") ⊎ (opts.level ≢ none) =
                    ground (arith, str_eq_iff opts.mode (str "http")) in
                  rw enabled (output_channel-ok opts output k, inr (wanted, g, f))
            ]
          ]
        ]
  ]
