-- ===== src/Mcp/Chunks.antt =====
-- apps/mcp-server/src/main.rs: `chunks_from`, which merges the events of a page into runs.
use ai_ssh.Base.{
  ℕ, ◌+◌, ◌≡◌, refl, ap, sym, ◌∙◌, Bool, true, false, not, ◌&&◌, List, [], ◌∷◌, ◌++◌, arith, inl,
  inr,
}
use mathlib.Core.List.{append_assoc}
use ai_ssh.Base.Tests.{if◌then◌else◌, Bool-cases}
use ai_ssh.Base.Lists.{length}
use ai_ssh.Base.Text.{Text, text_eq, text_eq_iff}
use ai_ssh.Mcp.Decoders.{DecodedEvent}

pub record Chunk : Type 0 where
  pub stream : Text
  pub persisted : Bool
  pub first_sequence : ℕ
  pub last_sequence : ℕ
  pub count : ℕ
  pub text : Text

abbrev pub bool_eq : Bool → Bool → Bool
bool_eq true b = b
bool_eq false b = not b

abbrev pub same_stream : Chunk → DecodedEvent → Bool
same_stream c e = text_eq c.stream e.stream && bool_eq c.persisted e.persisted

abbrev pub new_chunk : DecodedEvent → Chunk
new_chunk e = record {
  stream = e.stream;
  persisted = e.persisted;
  first_sequence = e.sequence;
  last_sequence = e.sequence;
  count = 1;
  text = e.text;
}

-- One round of the loop: the last chunk grows, or a new one is pushed.
unfoldable pub push_event : List Chunk → DecodedEvent → List Chunk
push_event [] e = new_chunk e ∷ []
push_event (c ∷ []) e =
    if same_stream c e
    then record c { text = c.text ++ e.text; last_sequence = e.sequence; count = c.count + 1 } ∷ []
    else c ∷ new_chunk e ∷ []
push_event (c ∷ d ∷ cs) e = c ∷ push_event (d ∷ cs) e

unfoldable pub push_events : List Chunk → List DecodedEvent → List Chunk
unfolding push_event
push_events cs [] = cs
push_events cs (e ∷ es) = push_events (push_event cs e) es

unfoldable pub chunks_from : List DecodedEvent → List Chunk
unfolding push_events
chunks_from es = push_events [] es

-- The reference: the runs, built from the last event on.
abbrev alike : Chunk → Chunk → Bool
alike c d = text_eq c.stream d.stream && bool_eq c.persisted d.persisted

abbrev absorb : Chunk → List Chunk → List Chunk
absorb c [] = c ∷ []
absorb c (d ∷ ds) =
    if alike c d
    then record c {
      last_sequence = d.last_sequence;
      count = c.count + d.count;
      text = c.text ++ d.text;
    }
      ∷ ds
    else c ∷ d ∷ ds

runs : List DecodedEvent → List Chunk
runs [] = []
runs (e ∷ es) = absorb (new_chunk e) (runs es)

push_event_shows :
    (d : Chunk) (cs : List Chunk) (e : DecodedEvent)
    → (d' : Chunk) × (cs' : List Chunk) × (push_event (d ∷ cs) e ≡ d' ∷ cs')
unfolding push_event
push_event_shows d [] e = elim (Bool-cases (same_stream d e)) [
  | inl same ↦ (
    record d { text = d.text ++ e.text; last_sequence = e.sequence; count = d.count + 1 },
    [],
    rw same refl,
  )
  | inr other ↦ (d, new_chunk e ∷ [], rw other refl)
]
push_event_shows d (c ∷ cs) e = (d, push_event (c ∷ cs) e, refl)

push_events-cons :
    (c d : Chunk) (cs : List Chunk) (es : List DecodedEvent)
    → push_events (c ∷ d ∷ cs) es ≡ c ∷ push_events (d ∷ cs) es
unfolding push_events
push_events-cons c d cs [] = refl
push_events-cons c d cs (e ∷ es) =
    let (d', cs', shows) = push_event_shows d cs e in rw shows (push_events-cons c d' cs' es)

absorb-absorb :
    (c : Chunk) (e : DecodedEvent) (cs : List Chunk)
    → absorb c (absorb (new_chunk e) cs) ≡ (
        if same_stream c e
        then absorb
            (record c { text = c.text ++ e.text; last_sequence = e.sequence; count = c.count + 1 })
            cs
        else c ∷ absorb (new_chunk e) cs)
absorb-absorb c e [] = refl
absorb-absorb c e (d ∷ ds) = ground (
  arith,
  text_eq_iff c.stream e.stream,
  text_eq_iff e.stream d.stream,
  text_eq_iff c.stream d.stream,
  append_assoc c.text e.text d.text,
)

push_events-absorb :
    (c : Chunk) (es : List DecodedEvent) → push_events (c ∷ []) es ≡ absorb c (runs es)
unfolding push_events runs
push_events-absorb c [] = refl
push_events-absorb c (e ∷ es) =
    let grown = record c {
      text = c.text ++ e.text;
      last_sequence = e.sequence;
      count = c.count + 1;
    } in
    let rest = absorb-absorb c e (runs es) in
    elim (Bool-cases (same_stream c e)) [
      | inl same ↦ rw same (push_events-absorb grown es ∙ sym (rest ∙ rw same refl))
      | inr other ↦ rw other (
          push_events-cons c (new_chunk e) [] es
          ∙ ap (◌∷◌ c) (push_events-absorb (new_chunk e) es)
          ∙ sym (rest ∙ rw other refl))
    ]

-- The loop computes the runs.
chunks_from-eq-runs : (es : List DecodedEvent) → chunks_from es ≡ runs es
unfolding chunks_from runs
chunks_from-eq-runs [] = refl
chunks_from-eq-runs (e ∷ es) = push_events-absorb (new_chunk e) es

-- The text of one stream, in the events and in the chunks.
abbrev pub text_of_events : (stream : Text) → List DecodedEvent → Text
text_of_events stream [] = []
text_of_events stream (e ∷ es) =
    if text_eq e.stream stream then e.text ++ text_of_events stream es else text_of_events stream es

abbrev pub text_of_chunks : (stream : Text) → List Chunk → Text
text_of_chunks stream [] = []
text_of_chunks stream (c ∷ cs) =
    if text_eq c.stream stream then c.text ++ text_of_chunks stream cs else text_of_chunks stream cs

abbrev pub events_counted : List Chunk → ℕ
events_counted [] = 0
events_counted (c ∷ cs) = c.count + events_counted cs

-- No chunk could have grown by the next one.
abbrev pub IsSeparated : List Chunk → Type 0
IsSeparated [] = Unit
IsSeparated (c ∷ []) = Unit
IsSeparated (c ∷ d ∷ ds) = (alike c d ≡ false) × IsSeparated (d ∷ ds)

text_of_chunks-absorb :
    (stream : Text) (c : Chunk) (cs : List Chunk)
    → text_of_chunks stream (absorb c cs) ≡ text_of_chunks stream (c ∷ cs)
text_of_chunks-absorb stream c [] = refl
text_of_chunks-absorb stream c (d ∷ ds) =
    ground
      (arith, text_eq_iff c.stream d.stream, append_assoc c.text d.text (text_of_chunks stream ds))

text_of_chunks-runs :
    (stream : Text) (es : List DecodedEvent)
    → text_of_chunks stream (runs es) ≡ text_of_events stream es
unfolding runs
text_of_chunks-runs stream [] = refl
text_of_chunks-runs stream (e ∷ es) =
    text_of_chunks-absorb stream (new_chunk e) (runs es) ∙ rw (text_of_chunks-runs stream es) refl

events_counted-absorb :
    (c : Chunk) (cs : List Chunk) → events_counted (absorb c cs) ≡ c.count + events_counted cs
events_counted-absorb c [] = refl
events_counted-absorb c (d ∷ ds) = ground arith

events_counted-runs : (es : List DecodedEvent) → events_counted (runs es) ≡ length es
unfolding runs
events_counted-runs [] = refl
events_counted-runs (e ∷ es) =
    omega (arith, events_counted-absorb (new_chunk e) (runs es), events_counted-runs es)

IsSeparated-absorb : (c : Chunk) (cs : List Chunk) → IsSeparated cs → IsSeparated (absorb c cs)
IsSeparated-absorb c [] h = tt
IsSeparated-absorb c (d ∷ []) h = ground arith
IsSeparated-absorb c (d ∷ f ∷ fs) h = ground (arith, h.0, h.1, text_eq_iff c.stream d.stream)

runs-IsSeparated : (es : List DecodedEvent) → IsSeparated (runs es)
unfolding runs
runs-IsSeparated [] = tt
runs-IsSeparated (e ∷ es) = IsSeparated-absorb (new_chunk e) (runs es) (runs-IsSeparated es)

-- Merging loses nothing: every stream's text is the same in the chunks as in the events, the chunks
-- count every event, and no two neighbours are of the same stream and both stored or both not.
pub chunks_from_lem :
    (es : List DecodedEvent) (stream : Text)
    → (text_of_chunks stream (chunks_from es) ≡ text_of_events stream es)
      × (events_counted (chunks_from es) ≡ length es)
      × IsSeparated (chunks_from es)
chunks_from_lem es stream =
    rw (chunks_from-eq-runs es)
      (text_of_chunks-runs stream es, events_counted-runs es, runs-IsSeparated es)
