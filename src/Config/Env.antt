-- ===== src/Config/Env.antt =====
-- config.go, HeaderValueFromEnv and ExpandEnv: a text `env:NAME` stands for a variable of the
-- environment. The environment is the parameter `getenv`, os.Getenv.
mod Value
mod Services
mod Providers
mod Root
unfoldable pub use Value.{header_value_from_env}
unfoldable pub use Root.{expand_env}
