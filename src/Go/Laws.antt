-- ===== src/Go/Laws.antt =====
-- Tests
use scia.Base.{◌≡◌, refl, some, none, true, false}
use scia.Go.Strings.{to_lower, trim_space, cut, has_suffix, trim_suffix}
use scia.Go.Net.{split_host_port}
use scia.Go.Path.{clean_rooted}
use scia.Go.Match.{path_match}

go_tests :
    (to_lower "AbZ/é" ≡ "abz/é")
    × (trim_space " \ta b\n" ≡ "a b")
    × (cut "a.b.c" b'.' ≡ some ("a", "b.c"))
    × (has_suffix "a/*" "/*" ≡ true)
    × (trim_suffix "a/*" "*" ≡ "a/")
unfolding to_lower trim_space cut has_suffix trim_suffix
go_tests = (refl, refl, refl, refl, refl)

net_tests :
    (split_host_port "a.com:80" ≡ some ("a.com", "80"))
    × (split_host_port "[::1]:80" ≡ some ("::1", "80"))
    × (split_host_port "::1" ≡ none)
    × (split_host_port ":8080" ≡ some ("", "8080"))
    × (split_host_port "a.com" ≡ none)
unfolding split_host_port
net_tests = (refl, refl, refl, refl, refl)

clean_tests : (clean_rooted "" ≡ "/") × (clean_rooted "a/../../b//./c/" ≡ "/b/c")
unfolding clean_rooted
clean_tests = (refl, refl)

match_tests :
    (path_match "*.example.com" "api.example.com" ≡ true)
    × (path_match "/v1/*" "/v1/a" ≡ true)
    × (path_match "/v1/*" "/v1/a/b" ≡ false)
    × (path_match "a[b-d]?*" "acxyz" ≡ true)
    × (path_match "a[^b-d]" "ac" ≡ false)
    × (path_match "a**b*" "axxbyy" ≡ true)
    × (path_match "[a" "a" ≡ false)
    × (path_match "\\*" "*" ≡ true)
unfolding path_match
match_tests = (refl, refl, refl, refl, refl, refl, refl, refl)
