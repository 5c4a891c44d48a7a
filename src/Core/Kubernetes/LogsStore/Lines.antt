-- ===== src/Core/Kubernetes/LogsStore/Lines.antt =====
-- What becomes of the lines of a pod's logs: `StreamLogs` of
-- v2/apiserver/internal/core/kubernetes/logs_store.go.
use Prim.Native.Char.{Char}
use Prim.Native.String.{◌++◌}
use mathlib.Core.List.{append-nil, ◌++◌ as ◌++ᴸ◌}
use text.Mathlib.TextLemmas.{nil-append, cons-append}
use brignext.Base.{
  ◌≡◌, refl, String, Bool, false, if◌then◌else◌, Option, some, List, [], ◌∷◌, map, has_char, arith,
}
use brignext.Core.Types.{Time}
use brignext.Core.Services.Logs.{LogEntry, returns, with_request, panics}
use brignext.Rest.TokenAuth.{split_at_space}
use brignext.Core.Kubernetes.LogsStore.{
  Read, line, end_of_file, failed, without_last, entry_of, sent_first, ending_of, pump,
}

-- A line as the kubelet writes it: the time, a space, the message and a newline.
pub record Written : Type 0 where
  pub time_str : String
  pub message : String

-- The text of such a line, and the entry that it stands for.
abbrev pub text_of : Written → String
text_of l = (l.time_str ++ (" " ++ l.message)) ++ "\n"

abbrev pub entry_for : (String → Option Time) → Written → LogEntry
entry_for parse_time l = record { time = parse_time l.time_str; message = l.message }

-- A time has no space in it.
abbrev pub HaveTimes : List Written → Type 0
HaveTimes [] = Unit
HaveTimes (l ∷ ls) = (has_char " " l.time_str ≡ false) × HaveTimes ls

split_at_space-append :
    (s t : String) → has_char " " s ≡ false → split_at_space (s ++ (" " ++ t)) ≡ some (s, t)
unfolding split_at_space has_char
split_at_space-append String.[] t h =
    let space : Char = " " in rw (nil-append (" " ++ t), cons-append space "" t, nil-append t)
split_at_space-append (String.◌∷◌ c s) t h =
    rw (cons-append c s (" " ++ t)) (ground (arith, split_at_space-append s t))

without_last-append : (s : String) → without_last (s ++ "\n") ≡ some s
unfolding without_last
without_last-append String.[] = refl
without_last-append (String.◌∷◌ c s) =
    rw (cons-append c s "\n") (rw (without_last-append s, without_last) refl)

-- The lines that were read are sent as their entries, whatever follows.
pump-append :
    (parse_time : String → Option Time) (follow : Bool) (ls : List Written) (after : List Read)
    → HaveTimes ls
    → let stream = pump parse_time follow (map (λ l. line (text_of l)) ls ++ᴸ after) in
      (stream.entries ≡ map (entry_for parse_time) ls ++ᴸ (pump parse_time follow after).entries)
      × (stream.ending ≡ (pump parse_time follow after).ending)
unfolding pump sent_first entry_of
pump-append parse_time follow [] after h = (refl, refl)
pump-append parse_time follow (l ∷ ls) after h =
    let (entries, ending) = pump-append parse_time follow ls after h.1 in
    let read = without_last-append (l.time_str ++ (" " ++ l.message)) in
    let parts = split_at_space-append l.time_str l.message h.0 in
    (rw (read, entries) (rw (parts, entry_of, sent_first) refl), rw (read, ending))

-- Lines that each have a time, a space and a message: they are sent in order, each with its time as
-- far as it can be parsed and the whole of its message, whether what follows is the end of the file
-- or an error with nothing read before it. At the end of the file the goroutine ends, or hangs until
-- the request is over where the logs are followed; at such an error it panics.
pub pump_lem :
    (parse_time : String → Option Time) (follow : Bool) (ls : List Written) (after : List Read)
    → HaveTimes ls
    → (pump parse_time follow (map (λ l. line (text_of l)) ls ++ᴸ end_of_file ∷ after) ≡ record {
      entries = map (entry_for parse_time) ls;
      ending = if follow then with_request else returns;
    })
      × (pump parse_time follow (map (λ l. line (text_of l)) ls ++ᴸ failed "" ∷ after)
          ≡ record { entries = map (entry_for parse_time) ls; ending = panics })
unfolding pump sent_first without_last ending_of
pump_lem parse_time follow ls after h =
    let (entries, ending) = pump-append parse_time follow ls (end_of_file ∷ after) h in
    let (entries', ending') = pump-append parse_time follow ls (failed "" ∷ after) h in
    (
      ground (arith, entries, ending, append-nil (map (entry_for parse_time) ls)),
      ground (arith, entries', ending', append-nil (map (entry_for parse_time) ls)),
    )
