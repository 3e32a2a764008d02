-- ===== src/Transport/Patterns.antt =====
-- eventforge/transports: `MemoryTransport._matches` of memory.py and `_topic_matches` of tcp.py.
pub mod Wildcards
use observer_pattern.Prelude.{Bool, true, if◌then◌else◌, ◌==◌, Text, codes, text_eq}
use observer_pattern.Transport.Glob.{fnmatch, replace}

-- memory.py: the three replacements, then `fnmatch`
unfoldable pub memory_pattern : Text → Text
memory_pattern pattern =
    let p₁ = replace (codes "**") (codes "__DOUBLE__") pattern in
    let p₂ = replace (codes "*") (codes "[^.]*") p₁ in replace (codes "__DOUBLE__") (codes "*") p₂

unfoldable pub memory_matches : Text → Text → Bool
memory_matches topic pattern =
    if pattern == topic then true else fnmatch topic (memory_pattern pattern)

unfoldable pub tcp_matches : Text → Text → Bool
tcp_matches topic pattern = if pattern == topic then true else fnmatch topic pattern
