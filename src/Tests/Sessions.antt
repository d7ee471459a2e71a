-- ===== src/Tests/Sessions.antt =====
-- The theorems about the calls of a program and its modules, at concrete inputs.
use mathlib.Core.Option
use ig_cachesim.Common.{suc, ◌≡◌, true, false, Option, some, [], ◌∷◌, arith}
use ig_cachesim.Capture.{File, Capture, no_modules, end_capture}
use ig_cachesim.Session.{Session}
use ig_cachesim.Session.Calls.{Ends, end_capture-Ends}
use ig_cachesim.Modules.{Segment, Object, get_module_list}
use ig_cachesim.Modules.Listing.{described_all, get_module_list-described}
use ig_cachesim.Session.{capture_of}
use ig_cachesim.Tests.Traps.{tracer, tracer-IsTracer}

abbrev session : Session
session = record { tracer = tracer; modules = no_modules; handler_installed = false }

end_capture-Ends_example :
    (r : Option File × Capture) × (end_capture
        (suc tracer.trace.stats.count)
        true
        true
        []
        (capture_of session)
      ≡ some r)
    × Ends true (capture_of session) r.1
end_capture-Ends_example =
    end_capture-Ends true true [] (capture_of session) tracer-IsTracer.trace.table

abbrev code : Segment
code = record { executable = true; load = true; vaddr = 0x1000; memsz = 0x2000 }

abbrev main : Object
main = record { addr = 0x400000; name = []; segments = code ∷ [] }

abbrev libc : Object
libc = record { addr = 0x7f0000000000; name = 0x63 ∷ []; segments = code ∷ code ∷ [] }

get_module_list-described_example :
    Option.map (λ r. r.infos) (get_module_list (0x61 ∷ []) 0x7000 (main ∷ libc ∷ []) no_modules)
    ≡ some (described_all (0x61 ∷ []) 0x7000 true (main ∷ libc ∷ []))
get_module_list-described_example =
    get_module_list-described (0x61 ∷ []) 0x7000 (main ∷ libc ∷ []) (omega arith) (omega arith)
      (omega arith, (omega arith, tt))
