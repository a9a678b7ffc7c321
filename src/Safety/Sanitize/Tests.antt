-- ===== src/Safety/Sanitize/Tests.antt =====
-- Commands that are refused, and some that are not.
use hyprland_agent.Prelude.{codes, ◌++◌, ◌∷◌, ◌≡◌, refl, true, false}
use hyprland_agent.Safety.Sanitize.Blocks.{sanitize_command-background}
use hyprland_agent.Safety.Pattern.{ends, search_from}
use hyprland_agent.Safety.Sanitize.{strip, first_blocked, sanitize_command}

refuses_force : (sanitize_command (codes " rm -rf / ")).0 ≡ false
unfolding sanitize_command strip first_blocked search_from ends
refuses_force = refl

gives_reason : sanitize_command (codes "sleep 9 &") ≡ (false, codes "blocked pattern: '&\\\\s*$'")
unfolding sanitize_command strip first_blocked search_from ends
gives_reason = refl

refuses_pipe : (sanitize_command (codes "cat x |  agent run")).0 ≡ false
unfolding sanitize_command strip first_blocked search_from ends
refuses_pipe = refl

refuses_device : (sanitize_command (codes "dd if=a of=/dev/sda")).0 ≡ false
unfolding sanitize_command strip first_blocked search_from ends
refuses_device = refl

refuses_mkfs : (sanitize_command (codes "sudo mkfs.ext4 x")).0 ≡ false
unfolding sanitize_command strip first_blocked search_from ends
refuses_mkfs = refl

allows_list : (sanitize_command (codes "ls -la && cat a&b")).0 ≡ true
unfolding sanitize_command strip first_blocked search_from ends
allows_list = refl

-- Flags in two words are let through.
allows_split_flags : (sanitize_command (codes "rm -r -f /")).0 ≡ true
unfolding sanitize_command strip first_blocked search_from ends
allows_split_flags = refl

sanitize_command-background_example :
    (sanitize_command (codes "sleep 9 " ++ b'&' ∷ codes "  ")).0 ≡ false
sanitize_command-background_example =
    sanitize_command-background (codes "sleep 9 ") (codes "  ") (refl, (refl, tt))
