-- ===== src/SshConfig/Tests.antt =====
-- Concrete runs of src/ssh_config.rs, and its theorems at concrete inputs.
use shell_proxy.Prelude.{
  ◌≡◌, refl, List, [], ◌∷◌, ◌++◌, map, concat, none, some, true, false, ok, Text, codes,
}
use shell_proxy.SshConfig.{System, parse_ssh_g_output}
use shell_proxy.SshConfig.Tokens.{Target, expand_tokens}
use shell_proxy.SshConfig.Expansion.{
  Part, literal, percent, host_name, port_number, local, other, print, meaning, expand_tokens-print,
}

abbrev windows_target : Target
windows_target = record {
  hostname = codes "h%1";
  port = 2200;
  user = codes "r";
  local_user = none;
  escape = true;
}

abbrev sample_parts : List Part
sample_parts = literal 120 ∷ host_name ∷ percent ∷ port_number ∷ local ∷ other 100 ∷ []

sample_expansion : expand_tokens windows_target (codes "x%h%%%p%u%d") ≡ codes "xh%%1%2200%u%d"
unfolding expand_tokens
sample_expansion = refl

expand_tokens-print_example :
    expand_tokens windows_target (concat (map print sample_parts))
    ≡ concat (map (meaning windows_target) sample_parts)
expand_tokens-print_example =
    expand_tokens-print windows_target sample_parts
      (refl, (tt, (tt, (tt, (tt, ((refl, refl, refl, refl, refl), tt))))))

abbrev sample_values : List Text
sample_values = codes "a b" ∷ [] ∷ codes "i's" ∷ []

abbrev sample_system : System
sample_system = record {
  home_dir = some (codes "/home/u");
  join_path = λ a b. a ++ codes "/" ++ b;
  local_user = some (codes "u");
  windows = true;
}

abbrev sample_output : Text
sample_output =
    codes "hostname h%1"
    ++ 10 ∷ codes "port 2200"
    ++ 10 ∷ codes "identityfile ~/.ssh/k"
    ++ 10 ∷ codes "userknownhostsfile \"a b\" c"
    ++ 10 ∷ codes "stricthostkeychecking accept-new"
    ++ 10 ∷ codes "proxyjump j%h"
    ++ 10 ∷ codes "connecttimeout 0"

-- The values of the jump are escaped, and the second expansion of `connect` takes the escape away.
sample_resolved :
    parse_ssh_g_output sample_system sample_output
    ≡ ok (record {
      hostname = codes "h%1";
      port = 2200;
      user = codes "u";
      identity_files = codes "/home/u/.ssh/k" ∷ [];
      known_hosts_files = codes "a b" ∷ codes "c" ∷ [];
      proxy_command = some (codes "ssh -W [h%%1]:2200 jh%%1");
      connect_timeout = none;
      strict_host_keys = false;
      host_key_alias = none;
    })
unfolding parse_ssh_g_output
sample_resolved = refl

jump_unescaped :
    expand_tokens windows_target (codes "ssh -W [h%%1]:2200 jh%%1") ≡ codes "ssh -W [h%1]:2200 jh%1"
unfolding expand_tokens
jump_unescaped = refl
