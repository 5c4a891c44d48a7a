-- ===== src/Tests/Logs.antt =====
-- Two lines of a pod's logs.
use Prim.Native.String.{String}
use brignext.Base.{
  ◌≡◌, refl, true, ◌==◌, Option, none, some, List, [], ◌∷◌, ◌++◌, map, has_char, if◌then◌else◌,
}
use brignext.Core.Services.Logs.{with_request, panics}
use brignext.Core.Types.{Time}
use brignext.Core.Kubernetes.LogsStore.{line, end_of_file, failed, pump}
use brignext.Core.Kubernetes.LogsStore.Lines.{Written, text_of, entry_for, HaveTimes, pump_lem}

abbrev parse_time : String → Option Time
parse_time s = if s == "1970-01-01T00:00:07Z" then some 7 else none

abbrev two_lines : List Written
two_lines =
    record { time_str = "1970-01-01T00:00:07Z"; message = "hello, world" }
    ∷ record { time_str = "later"; message = "" }
    ∷ []

two_lines_times : HaveTimes two_lines
unfolding has_char
two_lines_times = (refl, (refl, tt))

pump_example :
    (pump parse_time true (map (λ l. line (text_of l)) two_lines ++ end_of_file ∷ [])
      ≡ record { entries = map (entry_for parse_time) two_lines; ending = with_request })
    × (pump parse_time true (map (λ l. line (text_of l)) two_lines ++ failed "" ∷ [])
        ≡ record { entries = map (entry_for parse_time) two_lines; ending = panics })
pump_example = pump_lem parse_time true two_lines [] two_lines_times
