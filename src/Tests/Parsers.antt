-- ===== src/Tests/Parsers.antt =====
-- The parsers of the status probes at short outputs, and the theorem of the disks.
use srvgov_cli.Prelude.{String, ◌≡◌, refl, List, [], ◌∷◌, ◌++◌, map, pos}
use srvgov_cli.GoText.{Text, codes}
use srvgov_cli.Observe.Status.{Disk, parse_disk, parse_memory, parse_cpu, scan_lines}
use srvgov_cli.Observe.Status.Devices.{first_of_each, readable, parse_disk-first_of_each}

abbrev text_lines : List String → Text
text_lines [] = []
text_lines (l ∷ ls) = codes l ++ 10 ∷ text_lines ls

abbrev unredacted : Text → Text
unredacted s = s

abbrev df_output : Text
df_output = text_lines (
    "Filesystem 1024-blocks Used Available Capacity Mounted on" ∷ "/dev/sda1 100 40 60 40% /"
    ∷ "tmpfs 10 1 9 10% /run" ∷ "/dev/sda1 100 40 60 40% /var lib" ∷ "/dev/sdb1 x 1 1 1% /broken"
    ∷ "/dev/sdb1 7 2 5 29% /my data" ∷ [])

abbrev df_disks : List Disk
df_disks =
    (record {
      mount = codes "/";
      size = pos 102400;
      used = pos 40960;
      avail = pos 61440;
      use_pct = pos 40;
    })
    ∷ (record {
      mount = codes "/my data";
      size = pos 7168;
      used = pos 2048;
      avail = pos 5120;
      use_pct = pos 29;
    })
    ∷ []

df_parsed : parse_disk unredacted df_output ≡ df_disks
unfolding parse_disk
df_parsed = refl

parse_disk-first_of_each_example :
    parse_disk unredacted df_output
    ≡ map (λ (e : Text × Disk). e.1) (first_of_each (readable unredacted (scan_lines df_output)))
parse_disk-first_of_each_example = parse_disk-first_of_each unredacted df_output

meminfo_parsed :
    parse_memory (text_lines ("MemTotal: 1000 kB" ∷ "MemFree: 100 kB" ∷ "Cached: 50 kB" ∷ []))
    ≡ record { total = pos 1024000; used = pos 870400; free = pos 153600 }
unfolding parse_memory
meminfo_parsed = refl

cpuinfo_parsed :
    parse_cpu unredacted (
      text_lines
        ("processor : 0" ∷ "model name : Fast" ∷ "processor : 1" ∷ "model name : Slow" ∷ []))
    ≡ record { model = codes "Fast"; cores = 2 }
unfolding parse_cpu
cpuinfo_parsed = refl
