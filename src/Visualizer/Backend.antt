-- ===== src/Visualizer/Backend.antt =====
-- The choice of a Qt backend in tools/visualizer/src/visualizer/__main__.py, and what app.py says of
-- it. The environment is an association list; what the probe process returns is an argument.
use anycall.Prelude.{
  ℕ, ◌≡◌, arith, Bool, true, false, Option, none, some, List, [], ◌∷◌, ◌++◌, eqb, if◌then◌else◌,
}
use anycall.Text.{Text, codes, ◌==◌}
use anycall.Assoc.{lookup, insert, lookup-insert}

abbrev pub Environ : Type 0
Environ = List (Text × Text)

abbrev pub qt_qpa_platform : Text
qt_qpa_platform = codes "QT_QPA_PLATFORM"

-- `os.environ.get` as a test: a variable that is empty counts as missing.
abbrev pub given : Option Text → Bool
given none = false
given (some []) = false
given (some (c ∷ cs)) = true

unfoldable pub env_given : Text → Environ → Bool
env_given name environ = given (lookup name environ)

-- The probe's return code, or none if it could not be run or took too long.
abbrev pub loads : Option ℕ → Bool
loads none = false
loads (some code) = eqb code 0

unfoldable pub prefer_xcb_backend : Option ℕ → Environ → Environ
unfolding env_given
prefer_xcb_backend probe environ =
    if env_given qt_qpa_platform environ
    then environ
    else if env_given (codes "WAYLAND_DISPLAY") environ
    then (if env_given (codes "DISPLAY") environ
        then (if loads probe then insert qt_qpa_platform (codes "xcb") environ else environ)
        else environ)
    else environ

unfoldable pub pin_supported : Text → Bool
pin_supported platform_name = platform_name == codes "xcb"

unfoldable pub unpinnable_reason : Text → Environ → Text
unfolding env_given
unpinnable_reason platform_name environ =
    codes "always-on-top needs the xcb backend; this session runs on '"
    ++ ((if platform_name == [] then codes "unknown" else platform_name)
        ++ (codes "', which gives the app no way to raise its own window. Fix: "
            ++ ((if env_given (codes "DISPLAY") environ
                  then codes
                      "install the xcb-cursor library (libxcb-cursor0 on Debian/Ubuntu) so it can run on XWayland"
                  else codes "start an X11 session, or a Wayland one with XWayland")
                ++ codes ".")))

-- Whatever the probe says, no other variable of the environment changes.
pub prefer_xcb_backend_keeps :
    (probe : Option ℕ) (environ : Environ) (name : Text)
    → (qt_qpa_platform == name) ≡ false
    → lookup name (prefer_xcb_backend probe environ) ≡ lookup name environ
unfolding prefer_xcb_backend
prefer_xcb_backend_keeps probe environ name other =
    ground (arith, other, lookup-insert qt_qpa_platform name (codes "xcb") environ)
