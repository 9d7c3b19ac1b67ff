-- ===== src/Children/Commands/Tests.antt =====
-- Runs of the classifier.
use swain.Common.{true, false, ◌≡◌, refl}
use swain.Children.Commands.{is_read_only_command}

pipeline : is_read_only_command "git log -n 3 | grep 'a b' && wc -l" ≡ true
unfolding is_read_only_command
pipeline = refl

redirected : is_read_only_command "cat a > b" ≡ false
unfolding is_read_only_command
redirected = refl

-- A substitution inside double quotes is not seen.
quoted_substitution : is_read_only_command "echo \"$(rm -rf src)\"" ≡ true
unfolding is_read_only_command
quoted_substitution = refl
