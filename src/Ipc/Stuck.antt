-- ===== src/Ipc/Stuck.antt =====
-- A text that no later text completes, as _parseResponse of src/console/jsre/deps/web3.js keeps it.
use ultron.Prelude.{
  ℕ, Bool, ◌≡◌, refl, ap, ◌∙◌, Option, none, some, List, [], ◌∷◌, ◌++◌, append_assoc,
}
use ultron.Text.{Text}
use ultron.Json.{Json}
use ultron.Manager.{Arrival}
use ultron.Ipc.{
  IpcProvider, prepend, keep_chunk, parsed_chunk, parse_chunk, parse_chunks, parse_response,
  on_data, deliver_all, timeout, fire,
}
use ultron.Ipc.Chunks.{dechunk}

module _ (parse : Text → Option Json) where
  -- The kept chunk is the start of nothing that can be parsed.
  pub record IsStuck (p : IpcProvider) : Type 0 where
    pub chunk : Text
    pub kept : p.last_chunk ≡ some chunk
    pub hopeless : (s : Text) → parse (chunk ++ s) ≡ none

  parse_chunk-stuck :
      (p : IpcProvider) (c text : Text)
      → p.last_chunk ≡ some c
      → parse (c ++ text) ≡ none
      → parse_chunk parse p text ≡ (keep_chunk p (c ++ text), [])
  unfolding parse_chunk parsed_chunk
  parse_chunk-stuck p c text kept h =
      ap (λ o. parsed_chunk p (prepend o text) (parse (prepend o text))) kept
      ∙ ap (parsed_chunk p (c ++ text)) h

  keep_chunk-IsStuck :
      (p : IpcProvider) (s : IsStuck p) (text : Text) → IsStuck (keep_chunk p (s.chunk ++ text))
  unfolding keep_chunk
  keep_chunk-IsStuck p s text = record {
    chunk = s.chunk ++ text;
    kept = refl;
    hopeless = λ r. ap parse (append_assoc s.chunk text r) ∙ s.hopeless (text ++ r);
  }

  parse_chunks-IsStuck :
      (p : IpcProvider) (cs : List Text)
      → IsStuck p
      → ((parse_chunks parse p cs).1 ≡ []) × IsStuck (parse_chunks parse p cs).0
  unfolding parse_chunks
  parse_chunks-IsStuck p [] s = (refl, s)
  parse_chunks-IsStuck p (c ∷ cs) s =
      rw (parse_chunk-stuck p s.chunk c s.kept (s.hopeless c))
        (parse_chunks-IsStuck (keep_chunk p (s.chunk ++ c)) cs (keep_chunk-IsStuck p s c))

  -- While the kept chunk is the start of nothing that can be parsed, no answer is handed out,
  -- whatever arrives, and neither what arrives nor the timer of a chunk changes that.
  pub on_data-IsStuck :
      (throws : ℕ → Arrival → Bool) (p : IpcProvider) (text : Text) (t : ℕ) (late : Text)
      → IsStuck p
      → ((on_data throws parse p text).1 ≡ [])
        × IsStuck (on_data throws parse p text).0
        × IsStuck (fire throws p t late).0
  unfolding on_data parse_response deliver_all fire timeout
  on_data-IsStuck throws p text t late s =
      let (nothing, still) = parse_chunks-IsStuck p (dechunk text) s in
      (
        rw nothing refl,
        rw nothing still,
        record { chunk = s.chunk; kept = s.kept; hopeless = s.hopeless },
      )
